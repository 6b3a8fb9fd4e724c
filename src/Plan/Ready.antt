-- ===== src/Plan/Ready.antt =====
-- crates/susun-planner: an action with at most one dependency may be put into a plan; a report with an error.
use susun.Prelude.{
  ◌≡◌, refl, true, ◌||◌, List, [], ◌∷◌, ◌++◌, arith, list_eq, nat_eq, =?_refl, list_beq_iff,
}
use susun.IndexMap.{contains, keys}
use susun.Diagnostics.{Diagnostic, error}
use susun.Diagnostics.Report
use susun.Diagnostics.Report.{DiagnosticReport}
use susun.Plan.{ActionId, PlanActionNode}
use susun.Plan.Input.{Actions}
use susun.Plan.Built.{IsReady}

pub contains-one : (d : ActionId) → contains (d ∷ []) d ≡ true
unfolding contains
contains-one d = ground (arith, =?_refl d)

pub one_dependency-IsReady :
    (actions : Actions) (node : PlanActionNode) (d : ActionId)
    → node.dependencies ≡ d ∷ []
    → contains (keys actions) d ≡ true
    → IsReady actions node
unfolding contains
one_dependency-IsReady actions node d e h = record {
  distinct = rw e (refl, tt);
  known = λ u m. ground (arith, rw e at m, list_beq_iff d u, h);
}

pub no_dependency-IsReady :
    (actions : Actions) (node : PlanActionNode) → node.dependencies ≡ [] → IsReady actions node
unfolding contains
no_dependency-IsReady actions node e = record { distinct = rw e tt; known = λ u m. cc (rw e at m) }

any_error-append :
    (ds : List Diagnostic) (d : Diagnostic)
    → Report.any_error (ds ++ d ∷ []) ≡ (Report.any_error ds || Report.is_error d.severity)
any_error-append [] d = ground arith
any_error-append (x ∷ ds) d = ground (arith, any_error-append ds d)

pub has_errors-push :
    (r : DiagnosticReport) (d : Diagnostic)
    → d.severity ≡ error
    → Report.has_errors (Report.push r d) ≡ true
unfolding Report.has_errors Report.push
has_errors-push r d h =
    ground (arith, any_error-append r.diagnostics (record d { ordinal = r.next_ordinal }), h)
