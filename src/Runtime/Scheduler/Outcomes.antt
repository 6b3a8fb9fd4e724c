-- ===== src/Runtime/Scheduler/Outcomes.antt =====
-- crates/susun-runtime/src/runtime.rs: what the report says of the actions, in a state that keeps the
-- invariant.
use susun.Prelude.{
  ◌≡◌, ◌∙◌, ap, true, false, Option, some, List, [], ◌∷◌, ◌++◌, arith, list_eq, nat_eq, =?_refl,
  list_beq_iff, inl, inr, Bool-cases,
}
use susun.IndexMap.{IndexMap, contains}
use susun.Plan.{ActionId, PlanActionNode}
use susun.Plan.Dag.Filled.{dependencies_of}
use susun.Runtime.{ActionStatus, succeeded}
use susun.Runtime.Scheduler.{RunState, any_failed, is_succeeded}
use susun.Runtime.Scheduler.Invariant.{status_of, deps_completed, IsPlanned, RunInv}

any_failed-false :
    (ds lost : List ActionId) (u : ActionId)
    → any_failed ds lost ≡ false
    → contains ds u ≡ true
    → contains lost u ≡ false
unfolding any_failed contains
any_failed-false [] lost u clear m = cc m
any_failed-false (d ∷ ds) lost u clear m =
    ground (arith, any_failed-false ds lost u, list_beq_iff d u)

any_failed-true :
    (ds lost : List ActionId)
    → any_failed ds lost ≡ true
    → (u : ActionId) × (contains ds u ≡ true) × (contains lost u ≡ true)
unfolding any_failed contains
any_failed-true [] lost h = cc h
any_failed-true (d ∷ ds) lost h = elim (Bool-cases (contains lost d)) [
  | inl bad ↦ (d, ground (arith, =?_refl d), bad)
  | inr good ↦ let (u, m, bad) = any_failed-true ds lost (ground arith) in (u, ground arith, bad)
]

-- The statuses of the dependencies of an action.
abbrev pub AllSucceeded : (status : ActionId → Option ActionStatus) → List ActionId → Type 0
AllSucceeded status ds = (u : ActionId) → contains ds u ≡ true → status u ≡ some succeeded

-- A dependency has ended, but did not succeed.
abbrev pub SomeLost : (status : ActionId → Option ActionStatus) → List ActionId → Type 0
SomeLost status ds =
    (u : ActionId) × (st : ActionStatus) × (contains ds u ≡ true)
    × (status u ≡ some st)
    × (is_succeeded st ≡ false)

module _ (actions : IndexMap ActionId PlanActionNode) (edges : IndexMap ActionId (List ActionId))
    (p : IsPlanned actions edges) (s : RunState) (inv : RunInv actions edges s) where
  module _ (k : ActionId)
      (started : contains (s.completed ++ (s.running ++ s.ready)) k ≡ true) where
    pub AllSucceeded-of :
        any_failed (dependencies_of actions k) s.failed ≡ false
        → AllSucceeded (status_of s.report) (dependencies_of actions k)
    AllSucceeded-of clear u m =
        let o = inv.settled u (deps_completed actions edges p s inv k u started m) in
        let kept = any_failed-false (dependencies_of actions k) s.failed u clear m in
        elim o.decided [
          | inl good ↦ o.reported ∙ ap some good
          | inr (inl bad) ↦ cc (o.counted_failed, kept, ap is_succeeded bad)
          | inr (inr bad) ↦ cc (o.counted_failed, kept, ap is_succeeded bad)
        ]

    pub SomeLost-of :
        any_failed (dependencies_of actions k) s.failed ≡ true
        → SomeLost (status_of s.report) (dependencies_of actions k)
    SomeLost-of lost =
        let (u, m, bad) = any_failed-true (dependencies_of actions k) s.failed lost in
        let o = inv.settled u (inv.failed_completed u bad) in
        (u, o.status, m, o.reported, ground (arith, o.counted_failed))
