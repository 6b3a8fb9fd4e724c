-- ===== src/Plan/Down/Correct.antt =====
-- crates/susun-planner/src/down/mod.rs: the errors of `plan_down`, and the plans that it returns.
use mathlib.Core.List.{Memᴰ, reverse, reverse-append}
use susun.Prelude.{
  ◌≡◌, refl, ◌∙◌, Bool, true, false, some, List, [], ◌∷◌, Text, arith, list_eq, nat_eq,
  if◌then◌else◌, Bool-cases, inl, inr,
}
use susun.IndexMap.{contains, get, values, contains-append}
use susun.Diagnostics.Report
use susun.Diagnostics.Report.{DiagnosticReport}
use susun.Model.{ServiceName}
use susun.Plan.{ActionId, PlanError, PlanActionNode, remove_container, down, action_id_collision}
use susun.Plan.Execution.{ExecutionPlan}
use susun.Plan.Dag.{PlanResult, ok, err, topological_action_order}
use susun.Plan.Dag.Correct.{IsWellTyped}
use susun.Plan.Input.{PlanningInput, PlanOutcome, service_identity_for, DownPlanOptions, Actions}
use susun.Plan.Built.{IsBuilt, no_actions-IsBuilt, IsBuilt-IsWellTyped, IsBuilt-order}
use susun.Plan.Returned.{PlansOnly, Returns, validated-Returns, blocked-Returns}
use susun.Plan.Yields.{
  IsCollision, Yields, yields, fails, Yields->>=, Yields-map, Yields-ok, Yields-err,
}
use susun.Plan.Owned.Listed.{index_containers-member}
use susun.Plan.Up.Grown.{Does, Extends-refl}
use susun.Engine.{ServiceInstanceId, ObservedContainer}
use susun.Plan.Owned.{OwnedResourceIndex, index_owned_resources}
use susun.Plan.Down.{DownState, plan_volume_removal, down_actions, after_services, plan_down}
use susun.Plan.Down.Roles.{Role, of_service}
use susun.Plan.Down.Removals.{
  IsTeardown, plan_network_removal-IsTeardown, plan_volume_removal-IsTeardown, or_no_op-IsTeardown,
}
use susun.Plan.Down.Services.{
  removal_id, IsRemoved, DownInv, Round, IsOwned, Handled, down_services-Round,
}

-- The services that are owned, as the planner counts them.
abbrev owned_by : PlanningInput → OwnedResourceIndex
owned_by input = (index_owned_resources input Report.new).0

-- The service is active, and a container of the snapshot that belongs to the project claims it.
pub record IsClaimed (input : PlanningInput) (s : ServiceName) : Type 0 where
  pub active : contains input.selection.active_services s ≡ true
  pub container : ObservedContainer
  pub observed : Memᴰ container (values input.snapshot.containers)
  pub of_project : container.project_identity ≡ some input.identity.working_set
  pub instance_id : ServiceInstanceId
  pub claims : container.service_identity ≡ some instance_id
  pub project : instance_id.project ≡ input.identity.working_set
  pub service : instance_id.service ≡ s

-- A plan of a teardown: `removals` are removals of containers, with one for each active service of the
-- graph that an observed container of the project claims. Every action is a stop, a removal of a container
-- behind the stop of it, a removal of a network or a volume behind all removals of containers, or nothing.
pub record IsDownPlan (input : PlanningInput) (actions : Actions) : Type 0 where
  pub built : IsBuilt actions
  pub removals : List ActionId
  pub removing :
      (j : ActionId)
      → contains removals j ≡ true
      → (i : ServiceInstanceId) × Does actions j (remove_container i)
  pub roles :
      (k : ActionId) (n : PlanActionNode) → get actions k ≡ some n → Role actions removals k n
  pub covers :
      (s : ServiceName)
      → contains input.graph.order s ≡ true
      → IsClaimed input s
      → (j : ActionId) × (contains removals j ≡ true)
        × Does actions j (remove_container (service_identity_for input.identity.working_set s))

contains-reverse : (xs : List Text) (s : Text) → contains (reverse xs) s ≡ contains xs s
unfolding contains
contains-reverse [] s = refl
contains-reverse (x ∷ xs) s =
    rw (reverse-append (x ∷ []) xs)
      (ground (arith, contains-append (reverse xs) (x ∷ []) s, contains-reverse xs s))

module _ (input : PlanningInput) (options : DownPlanOptions) where
  abbrev owned : OwnedResourceIndex
  owned = owned_by input

  -- The removals behind the services, from the invariant of the loop over them.
  down_actions-IsTeardown :
      (st : DownState)
      → DownInv input st
      → Yields IsCollision
          (IsTeardown st.actions (values st.remove_container_ids))
          (down_actions input options owned st)
  unfolding down_actions
  down_actions-IsTeardown st inv =
      let removals = values st.remove_container_ids in
      let at_start : IsTeardown st.actions removals st.actions = record {
        built = inv.built;
        removals_known = inv.removals_known;
        roles = λ k n h. of_service (inv.roles k n h);
        grown = Extends-refl st.actions;
      } in
      Yields->>= _
        (plan_network_removal-IsTeardown input st.actions removals owned.networks st.actions
          at_start)
        (λ networks t.
          Yields->>= _ (volumes-IsTeardown options.remove_volumes removals networks t)
            (λ volumes u. or_no_op-IsTeardown input st.actions removals volumes u))
    where
      volumes-IsTeardown :
          (wanted : Bool) (removals : List ActionId) (networks : Actions)
          → IsTeardown st.actions removals networks
          → Yields IsCollision (IsTeardown st.actions removals) (
              if wanted
              then plan_volume_removal input owned.volumes removals networks
              else ok networks)
      volumes-IsTeardown true removals networks t =
          plan_volume_removal-IsTeardown input st.actions removals owned.volumes networks t
      volumes-IsTeardown false removals networks t = yields t

  IsClaimed-IsOwned : (s : ServiceName) → IsClaimed input s → IsOwned input (owned_by input) s
  unfolding index_owned_resources
  IsClaimed-IsOwned s c =
      let found =
        index_containers-member input.identity.working_set (values input.snapshot.containers) []
          c.container c.instance_id c.observed c.of_project c.claims c.project in
      let listed = rw c.service at found in
      record {
        active = c.active;
        first = listed.first;
        others = listed.others;
        listed = listed.listed;
      }

  covers-of :
      (st : DownState) (s : ServiceName)
      → Report.has_errors st.diagnostics ≡ false
      → Handled input s st
      → IsRemoved input s st
  covers-of st s clean (inl removed) = removed
  covers-of st s clean (inr failed) = cc

  after_services-Returns :
      (start : DownState) (m : PlanResult DownState)
      → Yields IsCollision
          (Round input
            (λ next.
              (s : ServiceName)
              → contains (reverse input.graph.order) s ≡ true
              → IsOwned input (owned_by input) s
              → Handled input s next)
            start)
          m
      → Returns IsCollision (IsDownPlan input) (after_services input options (owned_by input) m)
  unfolding after_services Returns
  after_services-Returns start (err e) y = (err e, refl, fails (Yields-err e y refl))
  after_services-Returns start (ok st) y =
      let (inv, grows, handled) = Yields-ok st y refl in
      elim (Bool-cases (Report.has_errors st.diagnostics)) [
        | inl failed ↦
            rw (failed, after_services)
              (blocked-Returns IsCollision (IsDownPlan input) st.diagnostics)
        | inr clean ↦
            rw (clean, after_services)
              (validated-Returns IsCollision (IsDownPlan input) input down st.diagnostics
                (down_actions input options (owned_by input) st)
                (Yields-map (down_actions-IsTeardown st inv) (λ actions t. record {
                  built = t.built;
                  removals = values st.remove_container_ids;
                  removing = λ j h.
                      let (i, does) = inv.removing j h in
                      (i, t.grown.does j (remove_container i) does);
                  roles = t.roles;
                  covers = λ s m o.
                      let owned_s = IsClaimed-IsOwned s o in
                      let removed =
                        covers-of st s clean
                          (handled s (contains-reverse input.graph.order s ∙ m) owned_s) in
                      (
                        removal_id input s,
                        removed.listed,
                        t.grown.does (removal_id input s) _ removed.does,
                      );
                }))
                (λ actions d. d.built))
      ]

  start : DownState
  start = record {
    actions = [];
    remove_container_ids = [];
    diagnostics = (index_owned_resources input Report.new).1;
  }

  start-DownInv : DownInv input start
  unfolding start get values contains
  start-DownInv = record {
    built = no_actions-IsBuilt;
    named = tt;
    removals_known = λ j h. cc;
    roles = λ k n h. cc;
    removing = λ j h. cc;
  }

  plan_down-Returns : Returns IsCollision (IsDownPlan input) (plan_down input options)
  unfolding plan_down start
  plan_down-Returns =
      elim (Bool-cases (Report.has_errors (index_owned_resources input Report.new).1)) [
        | inl failed ↦ rw failed (
            blocked-Returns IsCollision (IsDownPlan input)
              (index_owned_resources input Report.new).1)
        | inr clean ↦ rw clean (
            after_services-Returns start _ (
              down_services-Round input (owned_by input) (reverse input.graph.order) start
                start-DownInv))
      ]

  -- `plan_down` returns an outcome, or the error that two actions have one id, and no other error: the
  -- actions that it builds always pass the validation.
  pub plan_down_total :
      (x : PlanResult PlanOutcome) × (plan_down input options ≡ some x)
      × ((e : PlanError) → x ≡ err e → (id : ActionId) × (e ≡ action_id_collision id))
  unfolding Returns
  plan_down_total = let (x, eq, y) = plan_down-Returns in (x, eq, λ e h. Yields-err e y h)

  -- The plan of an outcome of `plan_down` is one for a teardown: there is a removal of a container for each
  -- active service of the graph that an observed container of the project claims, and every action is a
  -- stop, a removal of a container that waits for its stop, a removal of a network or a volume that
  -- waits for all removals of containers, or the note that there is nothing to do. The plan has an
  -- order, and no key and no dependency occurs twice in it, as the runtime wants.
  pub plan_down-IsDownPlan :
      (outcome : PlanOutcome) (plan : ExecutionPlan)
      → plan_down input options ≡ some (ok outcome)
      → outcome.plan ≡ some plan
      → IsDownPlan input plan.actions
        × IsWellTyped plan.actions
        × ((order : List ActionId) × (topological_action_order plan.actions ≡ some (ok order)))
  unfolding Returns PlansOnly
  plan_down-IsDownPlan outcome plan h e =
      let (x, eq, y) = plan_down-Returns in
      let same : x ≡ ok outcome = ground (arith, eq, h) in
      let d = Yields-ok outcome y same plan e in
      (d, IsBuilt-IsWellTyped plan.actions d.built, IsBuilt-order plan.actions d.built)
