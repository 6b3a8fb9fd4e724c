-- ===== src/Plan/Up/Correct.antt =====
-- crates/susun-planner/src/up/mod.rs: the errors of `plan_up`, and the plans that it returns.
use susun.Prelude.{
  ◌≡◌, refl, ◌<◌, true, false, some, [], arith, list_eq, nat_eq, Bool-cases, inl, inr,
}
use susun.IndexMap.{contains, get, keys, IsDistinct}
use susun.Diagnostics.Report
use susun.Diagnostics.Report.{DiagnosticReport}
use susun.Model.{ServiceName, Service}
use susun.Graph.{GraphOutcome, depends_on_keys, build_graph}
use susun.Graph.Correct.{build_graph-order}
use susun.Kahn.Run.{index}
use susun.Plan.{ActionId, PlanError, up}
use susun.Plan.Dag.{PlanResult, ok, err}
use susun.Plan.Input.{PlanningInput, PlanOutcome, UpPlanOptions, Actions}
use susun.Plan.Naming.{NamingPolicy}
use susun.Plan.Preflight.{check_up_capabilities}
use susun.Plan.Built.{IsBuilt, no_actions-IsBuilt}
use susun.Plan.Returned.{Returns, validated-Returns, blocked-Returns}
use susun.Plan.Yields.{Yields, yields, fails, Yields-ok, Yields-err}
use susun.Plan.Up.{after_services, after_resources, plan_up}
use susun.Plan.Up.Resources.{UpResourceActions, ResourceState, no_resources}
use susun.Plan.Up.Services.{ServiceState}
use susun.Plan.Up.Waits.{IsUpError}
use susun.Plan.Up.Serving.{start_id, IsServed-Extends, UpInv}
use susun.Plan.Up.Grown.{Extends, Extends-refl}
use susun.Plan.Up.Served.{IsSelected, HasActions, IsEarlier, Moves, plan_services-Moves}
use susun.Plan.Up.Noted.{ResourcesInv}
use susun.Plan.Up.Steps.{Step}
use susun.Plan.Up.Provided.{AllProvided, plan_prerequisite_resources-Step}
use susun.Plan.Up.Brought.{BringsUp}
use susun.Plan.Up.Bringing.{service-BringsUp}

-- The service is active, and the project has it.
abbrev pub IsPlanned : PlanningInput → ServiceName → Type 0
IsPlanned input d = (service : Service) × IsSelected input d service

-- What the planning of resources starts from.
abbrev pub nothing_planned : ResourceState
nothing_planned = record { planned = no_resources; actions = []; diagnostics = Report.new }

-- A plan that brings every active service up.
pub record IsUpPlan (input : PlanningInput) (options : UpPlanOptions) (naming : NamingPolicy)
    (actions : Actions) : Type 0 where
  pub built : IsBuilt actions
  pub start_of : ServiceName → ActionId
  pub services :
      (s : ServiceName) (service : Service)
      → IsSelected input s service
      → BringsUp input options naming start_of (IsPlanned input) s service actions

module _ (input : PlanningInput) (options : UpPlanOptions) (naming : NamingPolicy)
    (o : GraphOutcome) (returned : build_graph input.project input.selection ≡ some o)
    (is_graph : o.graph ≡ some input.graph)
    (distinct : IsDistinct input.selection.active_services) where
  in_order :
      (s : ServiceName)
      → contains input.selection.active_services s ≡ true
      → contains input.graph.order s ≡ true
  in_order s h =
      let order =
        build_graph-order input.project input.selection distinct o input.graph returned is_graph in
      ground (arith, order.1 s, h)

  -- A dependency stands earlier in the order of the graph.
  dependency_before :
      (s d : ServiceName) (service : Service)
      → IsSelected input s service
      → contains input.selection.active_services d ≡ true
      → contains (keys service.depends_on) d ≡ true
      → index input.graph.order d < index input.graph.order s
  unfolding depends_on_keys
  dependency_before s d service is active m =
      let order =
        build_graph-order input.project input.selection distinct o input.graph returned is_graph in
      let needed : contains (depends_on_keys input.project s) d ≡ true =
        rw (is.declared, depends_on_keys) m in
      order.2 s d (is.active, active, needed)

  not_own_dependency :
      (s : ServiceName) (service : Service)
      → IsSelected input s service
      → contains (keys service.depends_on) s ≡ false
  not_own_dependency s service is = elim (Bool-cases (contains (keys service.depends_on) s)) [
    | inl own ↦
        let before = dependency_before s s service is is.active own in
        absurd (ground (arith, before))
    | inr other ↦ other
  ]

  module _ (from : ResourceState) (provided : AllProvided input naming options from) where
    abbrev resources : UpResourceActions
    resources = from.planned

    to_plan :
        (st next : ServiceState)
        → st.actions ≡ from.actions
        → Moves input naming resources st next
        → ((s : ServiceName) (service : Service)
            → contains input.graph.order s ≡ true
            → IsSelected input s service
            → HasActions input naming resources s service
                (IsEarlier input naming resources input.graph.order st s)
                next)
        → IsUpPlan input options naming next.actions
    to_plan st next same moves served = record {
      built = moves.inv.built;
      start_of = start_id input;
      services = λ s service is.
          let h = served s service (in_order s is.active) is in
          let grown : Extends from.actions next.actions = rw (← same) moves.grown in
          service-BringsUp input options naming from provided next.actions grown s service is
            h.runtime_name h.is_named (IsPlanned input)
            (IsServed-Extends input resources s service h.runtime_name
              (IsEarlier input naming resources input.graph.order st s) (IsPlanned input)
              next.actions next.actions (Extends-refl next.actions)
              (λ d m (other, planned).
                inr (other, planned, dependency_before s d service is planned.active m))
              h.served);
    }

    after_services-Returns :
        (st : ServiceState) (m : PlanResult ServiceState)
        → st.actions ≡ from.actions
        → Yields IsUpError
            (λ next.
              Moves input naming resources st next
              × ((s : ServiceName) (service : Service)
                  → contains input.graph.order s ≡ true
                  → IsSelected input s service
                  → Report.has_errors next.diagnostics ≡ false
                  → HasActions input naming resources s service
                      (IsEarlier input naming resources input.graph.order st s)
                      next))
            m
        → Returns IsUpError (IsUpPlan input options naming) (after_services input m)
    unfolding after_services Returns
    after_services-Returns st (err e) same y = (err e, refl, fails (Yields-err e y refl))
    after_services-Returns st (ok next) same y =
        let (moves, served) = Yields-ok next y refl in
        elim (Bool-cases (Report.has_errors next.diagnostics)) [
          | inl failed ↦
              rw (failed, after_services)
                (blocked-Returns IsUpError (IsUpPlan input options naming) next.diagnostics)
          | inr clean ↦
              rw (clean, after_services)
                (validated-Returns IsUpError (IsUpPlan input options naming) input up
                  next.diagnostics (ok next.actions)
                  (yields
                    (to_plan st next same moves (λ s service m is. served s service m is clean)))
                  (λ actions p. p.built))
        ]

  after_resources-Returns :
      (m : PlanResult ResourceState)
      → Yields IsUpError (Step input naming (AllProvided input naming options) nothing_planned) m
      → Returns IsUpError (IsUpPlan input options naming) (after_resources input naming m)
  unfolding after_resources Returns get
  after_resources-Returns (err e) y = (err e, refl, fails (Yields-err e y refl))
  after_resources-Returns (ok st) y =
      let step = Yields-ok st y refl in
      let inv = step.inv in
      let start : ServiceState = record {
        actions = st.actions;
        start_ids = [];
        diagnostics = st.diagnostics;
      } in
      let start_inv : UpInv input st.planned start = record {
        built = inv.built;
        provided = inv.provided;
        starts = λ name id h. cc;
        named = λ d id h. cc;
      } in
      elim (Bool-cases (Report.has_errors st.diagnostics)) [
        | inl failed ↦
            rw (failed, after_resources)
              (blocked-Returns IsUpError (IsUpPlan input options naming) st.diagnostics)
        | inr clean ↦
            rw (clean, after_resources)
              (after_services-Returns st (step.gives clean) start _ refl (
                plan_services-Moves input naming st.planned input.graph.order start start_inv
                  not_own_dependency))
      ]

  plan_up-Returns : Returns IsUpError (IsUpPlan input options naming) (plan_up input options naming)
  unfolding plan_up get
  plan_up-Returns =
      let start_inv : ResourcesInv nothing_planned = record {
        built = no_actions-IsBuilt;
        provided = record {
          networks = λ name id h. cc;
          volumes = λ name id h. cc;
          images = λ name id h. cc;
          builds = λ name id h. cc;
        };
      } in
      elim (Bool-cases (Report.has_errors (check_up_capabilities input options))) [
        | inl failed ↦ rw failed (
            blocked-Returns IsUpError (IsUpPlan input options naming)
              (check_up_capabilities input options))
        | inr clean ↦ rw clean (
            after_resources-Returns _
              (plan_prerequisite_resources-Step input naming options nothing_planned start_inv))
      ]

  -- If the graph is the one that `build_graph` returns for the project and a selection that names no
  -- service twice, then `plan_up` returns an outcome, or the error that two actions have one id, or that
  -- the naming policy refuses a name, and no other error: the actions always pass the validation.
  pub plan_up_total :
      (x : PlanResult PlanOutcome) × (plan_up input options naming ≡ some x)
      × ((e : PlanError) → x ≡ err e → IsUpError e)
  unfolding Returns
  plan_up_total = let (x, eq, y) = plan_up-Returns in (x, eq, λ e h. Yields-err e y h)
