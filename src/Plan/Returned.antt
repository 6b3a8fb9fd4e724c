-- ===== src/Plan/Returned.antt =====
-- crates/susun-planner: what the planners return, once the actions are put together.
use susun.Prelude.{◌≡◌, refl, Option, some, none, arith}
use susun.Diagnostics.Report
use susun.Diagnostics.Report.{DiagnosticReport}
use susun.Plan.{PlannedOperation, PlanError}
use susun.Plan.Execution.{ExecutionPlan}
use susun.Plan.Dag.{PlanResult, ok, err}
use susun.Plan.Input.{PlanningInput, PlanOutcome, planned, Actions, new_plan, validated}
use susun.Plan.Built.{IsBuilt}
use susun.Plan.Yields.{Yields, yields, fails, Yields-ok, Yields-err, validate_action_dag-ok}

-- The plan of an outcome, if it has one, holds actions with the property `P`.
unfoldable pub PlansOnly : (P : Actions → Type 0) → PlanOutcome → Type 0
PlansOnly P o = (plan : ExecutionPlan) → o.plan ≡ some plan → P plan.actions

-- What the whole function returns: an outcome, or an error that `E` allows.
unfoldable pub Returns :
    (E : PlanError → Type 0) (P : Actions → Type 0) → Option (PlanResult PlanOutcome) → Type 0
Returns E P r = (x : PlanResult PlanOutcome) × (r ≡ some x) × Yields E (PlansOnly P) x

module _ (E : PlanError → Type 0) (P : Actions → Type 0) where
  pub validated-Returns :
      (input : PlanningInput) (operation : PlannedOperation) (diagnostics : DiagnosticReport)
      (m : PlanResult Actions)
      → Yields E P m
      → ((a : Actions) → P a → IsBuilt a)
      → Returns E P (validated input operation diagnostics m)
  unfolding validated PlansOnly Returns new_plan
  validated-Returns input operation diagnostics (ok a) y built =
      let p = Yields-ok a y refl in
      let outcome = planned (new_plan input.identity operation a Report.new) diagnostics in
      (
        ok outcome,
        rw (validate_action_dag-ok a (built a p), validated) refl,
        yields {a = outcome} (λ plan h. let e : a ≡ plan.actions = ground (arith, h) in rw e at p),
      )
  validated-Returns input operation diagnostics (err e) y built =
      (err e, refl, fails (Yields-err e y refl))

  pub blocked-Returns :
      (diagnostics : DiagnosticReport)
      → Returns E P (some (ok (record { plan = none; diagnostics = diagnostics })))
  unfolding PlansOnly Returns
  blocked-Returns diagnostics = (_, refl, yields (λ plan h. cc))
