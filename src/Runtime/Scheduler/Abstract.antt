-- ===== src/Runtime/Scheduler/Abstract.antt =====
-- crates/susun-runtime/src/runtime.rs: the loop as an abstract machine that settles one action after
-- the other, without queues, counters and sets.
use mathlib.Core.Path.{subst}
use susun.Prelude.{
  ℕ, ◌≡◌, refl, sym, ◌∙◌, ap, true, false, Option, none, some, List, ◌++◌, arith, list_eq, nat_eq,
  ◌=?◌, =?_refl, list_beq_iff, if◌then◌else◌, inl, inr, Bool-cases, ◌⊎◌,
}
use susun.IndexMap.{IndexMap, contains, keys}
use susun.Plan.{ActionId, PlanActionNode}
use susun.Plan.Execution.{ExecutionPlan}
use susun.Plan.Dag.Filled.{dependencies_of}
use susun.Runtime.{ActionStatus, succeeded, skipped_dependency_failed}
use susun.Runtime.Scheduler.{
  RunState, any_failed, finish, skip, launch, Step, launched, finished, token_cancelled,
}
use susun.Runtime.Scheduler.Invariant.{
  status_of, is_skipped, deps_completed, IsPlanned, Outcome, RunInv,
}
use susun.Runtime.Scheduler.Completing.{Completes}
use susun.Runtime.Scheduler.Moves.{running_queued, queued_started, queued_new, finish-Completes}
use susun.Runtime.Scheduler.Rounds.{front_queued, front_new, skip-Completes}
use susun.Runtime.Scheduler.Reached.{front_cases, some_inj, launch_none, skips, starts, Round-of}
use susun.Runtime.Scheduler.Outcomes.{AllSucceeded, SomeLost, AllSucceeded-of, SomeLost-of}

-- What has become of the actions that are completed.
abbrev pub View : Type 0
View = ActionId → Option ActionStatus

abbrev pub view : RunState → View
view s k = if contains s.completed k then status_of s.report k else none

-- The status that the dependencies of an action allow: it is skipped if one of them did not succeed,
-- and else it runs.
abbrev pub Decides : View → List ActionId → ActionStatus → Type 0
Decides v ds st =
    ((st ≡ skipped_dependency_failed) × SomeLost v ds)
    ⊎ (((st ≡ succeeded) ⊎ (st ≡ ActionStatus.failed)) × AllSucceeded v ds)

-- One action is settled, after all of its dependencies.
pub record Settles (actions : IndexMap ActionId PlanActionNode) (v w : View) : Type 0 where
  pub id : ActionId
  pub status : ActionStatus
  pub known : contains (keys actions) id ≡ true
  pub open_before : v id ≡ none
  pub after_dependencies :
      (u : ActionId)
      → contains (dependencies_of actions id) u ≡ true
      → (st : ActionStatus) × (v u ≡ some st)
  pub decided : Decides v (dependencies_of actions id) status
  pub view_eq : (k : ActionId) → w k ≡ (if id =? k then some status else v k)

module _ (actions : IndexMap ActionId PlanActionNode) (edges : IndexMap ActionId (List ActionId))
    (p : IsPlanned actions edges) (s : RunState) (inv : RunInv actions edges s) where
  view_completed : (u : ActionId) → contains s.completed u ≡ true → view s u ≡ status_of s.report u
  view_completed u m = rw m refl

  module _ (id : ActionId) (new : contains s.completed id ≡ false)
      (queued : contains (s.running ++ s.ready) id ≡ true) where
    started : contains (s.completed ++ (s.running ++ s.ready)) id ≡ true
    started = queued_started actions edges p s inv id queued

    AllSucceeded-view :
        any_failed (dependencies_of actions id) s.failed ≡ false
        → AllSucceeded (view s) (dependencies_of actions id)
    AllSucceeded-view clear u m =
        view_completed u (deps_completed actions edges p s inv id u started m)
        ∙ AllSucceeded-of actions edges p s inv id started clear u m

    SomeLost-view :
        any_failed (dependencies_of actions id) s.failed ≡ true
        → SomeLost (view s) (dependencies_of actions id)
    SomeLost-view lost =
        let (u, st, m, reported, bad) = SomeLost-of actions edges p s inv id started lost in
        (
          u,
          st,
          m,
          view_completed u (deps_completed actions edges p s inv id u started m) ∙ reported,
          bad,
        )

    Decides-of :
        (t : RunState)
        → Completes actions edges p s inv id new t
        → (o : Outcome actions t id) → Decides (view s) (dependencies_of actions id) o.status
    Decides-of t c o =
        let kept = c.failed_kept id started in
        elim o.decided [
          | inl good ↦
              inr (inl good, AllSucceeded-view (sym kept ∙ o.skipped_iff ∙ ap is_skipped good))
          | inr (inl bad) ↦
              inr (inr bad, AllSucceeded-view (sym kept ∙ o.skipped_iff ∙ ap is_skipped bad))
          | inr (inr lost) ↦
              inl (lost, SomeLost-view (sym kept ∙ o.skipped_iff ∙ ap is_skipped lost))
        ]

    Settles-of :
        (t : RunState)
        → Completes actions edges p s inv id new t
        → Settles actions (view s) (view t)
    Settles-of t c = record {
      id = id;
      status = c.outcome.status;
      known = inv.kahn.queue_nodes id started;
      open_before = rw new refl;
      after_dependencies = λ u m.
          let old = deps_completed actions edges p s inv id u started m in
          let o = inv.settled u old in (o.status, view_completed u old ∙ o.reported);
      decided = Decides-of t c c.outcome;
      view_eq = λ k. elim (Bool-cases (id =? k)) [
        | inl same ↦ ground (
          arith,
          same,
          (list_beq_iff id k).0 same,
          c.completed_eq id,
          =?_refl id,
          c.outcome.reported,
        )
        | inr other ↦ ground (arith, c.completed_eq k, c.report_eq k other, other)
      ];
    }

-- A step settles one action, or leaves what is settled.
abbrev pub Refines : IndexMap ActionId PlanActionNode → (s t : RunState) → Type 0
Refines actions s t = ((k : ActionId) → view t k ≡ view s k) ⊎ Settles actions (view s) (view t)

module _ (plan : ExecutionPlan) (edges : IndexMap ActionId (List ActionId))
    (p : IsPlanned plan.actions edges) (s : RunState) (inv : RunInv plan.actions edges s) where
  launch-Refines :
      (now : ℕ) (t : RunState) → launch plan now s.ready s ≡ some t → Refines plan.actions s t
  launch-Refines now t h = elim (front_cases s.ready) [
    | inl empty ↦
        inl (λ k. ap (λ x. view x k) (sym (launch_none plan edges p now s.ready s t empty h)))
    | inr (id, rest, front) ↦ elim (Round-of plan edges p s inv now id rest front) [
      | skips lost to ↦ subst (Refines plan.actions s) (some_inj (sym to ∙ h)) (
          inr (
            Settles-of plan.actions edges p s inv id
              (front_new plan.actions edges p s inv id rest front)
              (front_queued plan.actions edges p s inv id rest front)
              (skip now id (record s { ready = rest }))
              (skip-Completes plan.actions edges p s inv id rest front now lost)))
      | starts clear to ↦ subst (Refines plan.actions s) (some_inj (sym to ∙ h)) (inl (λ k. refl))
    ]
  ]

  pub Step-Refines :
      (max_concurrency : ℕ) (t : RunState)
      → Step plan max_concurrency s t
      → Refines plan.actions s t
  Step-Refines max_concurrency t (launched now can to) = launch-Refines now t to
  Step-Refines max_concurrency t (finished id node result full runs found returned to) =
      let queued = running_queued plan.actions edges p s inv id runs in
      let new = queued_new plan.actions edges p s inv id queued in
      subst (Refines plan.actions s) (sym to) (
        inr (
          Settles-of plan.actions edges p s inv id new queued (finish node id result s)
            (finish-Completes plan.actions edges p s inv id node result returned runs new)))
  Step-Refines max_concurrency t (token_cancelled to) =
      subst (Refines plan.actions s) (sym to) (inl (λ k. refl))
