-- ===== src/Runtime/Scheduler/Progress.antt =====
-- crates/susun-runtime/src/runtime.rs: the number of rounds of the loop, and that it does not stop
-- early.
use mathlib.Core.Path.{subst}
use susun.Prelude.{
  ℕ, suc, ◌+◌, ◌*◌, ◌≤◌, ◌<◌, ◌≡◌, refl, sym, ◌∙◌, ap, true, false, some, List, [], ◌∷◌, ◌++◌,
  arith, list_eq, nat_eq, inl, inr, Bool-cases, =?_refl, length, length-append,
}
use susun.IndexMap.{IndexMap, contains, insert_set, IsDistinct-length-le, length-remove, keys}
use susun.Plan.{ActionId, PlanActionNode}
use susun.Plan.Execution.{ExecutionPlan}
use susun.Runtime.{ActionExecutionResult, succeeded, pending_result}
use susun.Runtime.Scheduler.{
  RunState, release_dependents, finish, skip, launch, can_launch, has_ended, is_empty, Step,
  launched, finished, token_cancelled, Reach, here, next,
}
use susun.Runtime.Scheduler.Invariant.{IsPlanned, RunInv}
use susun.Runtime.Scheduler.Completing.{completed_snoc}
use susun.Runtime.Scheduler.Moves.{running_queued, queued_started, queued_new}
use susun.Runtime.Scheduler.Rounds.{front_new}
use susun.Runtime.Scheduler.Reached.{
  front_cases, some_inj, skips, starts, Round-of, Reach-RunInv, node_of_key,
}

-- Two for a completed action, one for a running one.
pub progress : RunState → ℕ
progress s = 2 * length s.completed + length s.running

-- The steps of a run that are not the cancellation of the token.
pub rounds : {plan : ExecutionPlan} {max : ℕ} {s t : RunState} → Reach plan max s t → ℕ
rounds here = 0
rounds (next r (launched now can to)) = suc (rounds r)
rounds (next r (finished id node result full runs found returned to)) = suc (rounds r)
rounds (next r (token_cancelled to)) = rounds r

module _ (plan : ExecutionPlan) (edges : IndexMap ActionId (List ActionId))
    (p : IsPlanned plan.actions edges) (s : RunState) (inv : RunInv plan.actions edges s) where
  completed_suc :
      (id : ActionId)
      → contains s.completed id ≡ false
      → length (insert_set id s.completed) ≡ suc (length s.completed)
  completed_suc id new =
      ap length (completed_snoc plan.actions edges p s inv id new)
      ∙ omega (arith, length-append s.completed (id ∷ []))

  launch-progress :
      (now : ℕ) (t : RunState)
      → is_empty s.ready ≡ false
      → launch plan now s.ready s ≡ some t
      → progress s < progress t
  unfolding progress skip release_dependents
  launch-progress now t more h = elim (front_cases s.ready) [
    | inl empty ↦ cc (rw empty at more)
    | inr (id, rest, front) ↦ elim (Round-of plan edges p s inv now id rest front) [
      | skips lost to ↦
          subst (λ t. progress s < progress t) (some_inj (sym to ∙ h))
            (omega (arith, completed_suc id (front_new plan.actions edges p s inv id rest front)))
      | starts clear to ↦
          subst (λ t. progress s < progress t) (some_inj (sym to ∙ h))
            (omega (arith, length-append s.running (id ∷ [])))
    ]
  ]

  finish-progress :
      (id : ActionId) (node : PlanActionNode) (result : ActionExecutionResult)
      → contains s.running id ≡ true
      → progress s < progress (finish node id result s)
  unfolding progress finish release_dependents
  finish-progress id node result runs = omega (
    arith,
    length-remove id s.running runs,
    completed_suc id (
        queued_new plan.actions edges p s inv id
          (running_queued plan.actions edges p s inv id runs)),
  )

  -- The completed and the running actions are different actions of the plan.
  progress_le : progress s ≤ 2 * length (keys plan.actions)
  unfolding progress
  progress_le = omega (
    arith,
    IsDistinct-length-le (s.completed ++ (s.running ++ s.ready)) (keys plan.actions)
        inv.kahn.queue_distinct inv.kahn.queue_nodes,
    length-append s.completed (s.running ++ s.ready),
    length-append s.running s.ready,
  )

module _ (plan : ExecutionPlan) (edges : IndexMap ActionId (List ActionId))
    (p : IsPlanned plan.actions edges) (max_concurrency : ℕ) (s : RunState)
    (inv : RunInv plan.actions edges s) where
  rounds_le_progress :
      (t : RunState) (r : Reach plan max_concurrency s t) → progress s + rounds r ≤ progress t
  unfolding rounds progress
  rounds_le_progress t here = omega arith
  rounds_le_progress u (next {t} r (launched now can to)) = omega (
    arith,
    rounds_le_progress t r,
    launch-progress plan edges p t (Reach-RunInv plan edges p max_concurrency s t inv r) now u
        (ground (arith, can)) to,
  )
  rounds_le_progress u (next {t} r (finished id node result full runs found returned to)) =
      subst (λ u. progress s + suc (rounds r) ≤ progress u) (sym to)
        (omega (
          arith,
          rounds_le_progress t r,
          finish-progress plan edges p t (Reach-RunInv plan edges p max_concurrency s t inv r) id
              node result runs,
        ))
  rounds_le_progress u (next {t} r (token_cancelled to)) =
      subst (λ u. progress s + rounds r ≤ progress u) (sym to) (rounds_le_progress t r)

  pub rounds_le :
      (t : RunState) (r : Reach plan max_concurrency s t)
      → rounds r ≤ 2 * length (keys plan.actions)
  rounds_le t r = omega (
    arith,
    rounds_le_progress t r,
    progress_le plan edges p t (Reach-RunInv plan edges p max_concurrency s t inv r),
  )

-- The loop never waits for nothing: while it has not ended, some step is possible.
module _ (plan : ExecutionPlan) (edges : IndexMap ActionId (List ActionId))
    (p : IsPlanned plan.actions edges) (max_concurrency : ℕ) (s : RunState)
    (inv : RunInv plan.actions edges s) where
  pub launch_total : (now : ℕ) → (t : RunState) × (launch plan now s.ready s ≡ some t)
  unfolding launch
  launch_total now = elim (front_cases s.ready) [
    | inl empty ↦ (s, rw empty refl)
    | inr (id, rest, front) ↦ elim (Round-of plan edges p s inv now id rest front) [
      | skips lost to ↦ (skip now id (record s { ready = rest }), to)
      | starts clear to ↦ (record s { ready = rest; running = s.running ++ id ∷ [] }, to)
    ]
  ]

  pub Step-of :
      has_ended max_concurrency s ≡ false
      → (t : RunState) × (step : Step plan max_concurrency s t) × ((s0 : RunState)
            (r : Reach plan max_concurrency s0 s)
          → rounds (next r step) ≡ suc (rounds r))
  unfolding contains rounds
  Step-of more = elim (Bool-cases (can_launch max_concurrency s)) [
    | inl can ↦ let (t, to) = launch_total 0 in (t, launched 0 can to, λ s0 r. refl)
    | inr full ↦ elim (front_cases s.running) [
      | inl empty ↦ cc (rw (full, empty) at more)
      | inr (id, rest, front) ↦
          let runs : contains s.running id ≡ true = rw front (ground (arith, =?_refl id)) in
          let known = inv.kahn.queue_nodes id (
            queued_started plan.actions edges p s inv id
              (running_queued plan.actions edges p s inv id runs)) in
          let (node, found) = node_of_key plan edges p id known in
          (
            finish node id (record (pending_result id) { status = succeeded }) s,
            finished id node (record (pending_result id) { status = succeeded }) full runs found
                (inl refl) refl,
            λ s0 r. refl,
          )
    ]
  ]
