-- ===== src/Runtime/Scheduler/Reached.antt =====
-- crates/susun-runtime/src/runtime.rs: the states that the loop reaches.
use susun.Prelude.{
  ℕ, ◌≡◌, refl, sym, ◌∙◌, true, false, some, List, [], ◌∷◌, ◌++◌, arith, list_eq, nat_eq, inl, inr,
  Bool-cases, Option-cases, ◌⊎◌,
}
use mathlib.Core.Path.{subst}
use susun.IndexMap.{IndexMap, contains, get, keys, get-none_iff}
use susun.Plan.{ActionId, PlanActionNode}
use susun.Plan.Execution.{ExecutionPlan}
use susun.Plan.Dag.Filled.{dependencies_of}
use susun.Runtime.Scheduler.{
  RunState, any_failed, skip, launch_action, launch, Step, launched, finished, token_cancelled,
  Reach, here, next,
}
use susun.Runtime.Scheduler.Invariant.{IsPlanned, RunInv}
use susun.Runtime.Scheduler.Moves.{finish-RunInv}
use susun.Runtime.Scheduler.Rounds.{front_new, front_node, skip-RunInv, started-RunInv}

pub front_cases :
    {A : Type 0} (xs : List A) → (xs ≡ []) ⊎ ((x : A) × (rest : List A) × (xs ≡ x ∷ rest))
front_cases [] = inl refl
front_cases (x ∷ xs) = inr (x, xs, refl)

pub some_inj : {A : Type 0} {a b : A} → some a ≡ some b → a ≡ b
some_inj h = cc h

module _ (plan : ExecutionPlan) (edges : IndexMap ActionId (List ActionId))
    (p : IsPlanned plan.actions edges) where
  dependencies_of-get :
      (id : ActionId) (node : PlanActionNode)
      → get plan.actions id ≡ some node
      → dependencies_of plan.actions id ≡ node.dependencies
  unfolding dependencies_of
  dependencies_of-get id node found = ground (arith, found)

  pub node_of_key :
      (id : ActionId)
      → contains (keys plan.actions) id ≡ true
      → (node : PlanActionNode) × (get plan.actions id ≡ some node)
  node_of_key id known = elim (Option-cases (get plan.actions id)) [
    | inl free ↦ cc ((get-none_iff plan.actions id).0 free, known)
    | inr found ↦ found
  ]

  pub launch_none :
      (now : ℕ) (queue : List ActionId) (s t : RunState)
      → queue ≡ []
      → launch plan now queue s ≡ some t
      → s ≡ t
  unfolding launch
  launch_none now [] s t empty h = some_inj h
  launch_none now (id ∷ rest) s t empty h = cc empty

  -- What one round of the inner loop gives.
  pub data Round (now : ℕ) (s : RunState) (id : ActionId) (rest : List ActionId) : Type 0 where
    skips :
        any_failed (dependencies_of plan.actions id) s.failed ≡ true
        → launch plan now s.ready s ≡ some (skip now id (record s { ready = rest }))
        → Round now s id rest
    starts :
        any_failed (dependencies_of plan.actions id) s.failed ≡ false
        → launch plan now s.ready s
          ≡ some (record s { ready = rest; running = s.running ++ id ∷ [] })
        → Round now s id rest

  module _ (s : RunState) (inv : RunInv plan.actions edges s) where
    pub Round-of :
        (now : ℕ) (id : ActionId) (rest : List ActionId) → s.ready ≡ id ∷ rest → Round now s id rest
    unfolding launch launch_action
    Round-of now id rest front =
        let new = front_new plan.actions edges p s inv id rest front in
        let (node, found) = node_of_key id (front_node plan.actions edges p s inv id rest front) in
        let same = dependencies_of-get id node found in
        elim (Bool-cases (any_failed (dependencies_of plan.actions id) s.failed)) [
          | inl lost ↦ skips lost (rw (front, new, found, rw same at lost) refl)
          | inr clear ↦ starts clear (rw (front, new, found, rw same at clear) refl)
        ]

    launch-RunInv :
        (now : ℕ) (t : RunState) → launch plan now s.ready s ≡ some t → RunInv plan.actions edges t
    launch-RunInv now t h = elim (front_cases s.ready) [
      | inl empty ↦ subst (RunInv plan.actions edges) (launch_none now s.ready s t empty h) inv
      | inr (id, rest, front) ↦ elim (Round-of now id rest front) [
        | skips lost to ↦
            subst (RunInv plan.actions edges) (some_inj (sym to ∙ h))
              (skip-RunInv plan.actions edges p s inv id rest front now lost)
        | starts clear to ↦
            subst (RunInv plan.actions edges) (some_inj (sym to ∙ h))
              (started-RunInv plan.actions edges p s inv id rest front clear)
      ]
    ]

    cancelled-RunInv : RunInv plan.actions edges (record s { cancelled = true })
    cancelled-RunInv = record {
      edges_kept = inv.edges_kept;
      kahn = inv.kahn;
      failed_completed = inv.failed_completed;
      running_clear = inv.running_clear;
      waiting = inv.waiting;
      settled = λ k m.
          let o = inv.settled k m in
          record {
            status = o.status;
            reported = o.reported;
            decided = o.decided;
            counted_failed = o.counted_failed;
            skipped_iff = o.skipped_iff;
          };
    }

    pub Step-RunInv :
        (max_concurrency : ℕ) (t : RunState)
        → Step plan max_concurrency s t
        → RunInv plan.actions edges t
    Step-RunInv max_concurrency t (launched now can to) = launch-RunInv now t to
    Step-RunInv max_concurrency t (finished id node result full runs found returned to) =
        subst (RunInv plan.actions edges) (sym to)
          (finish-RunInv plan.actions edges p s inv id node result returned runs)
    Step-RunInv max_concurrency t (token_cancelled to) =
        subst (RunInv plan.actions edges) (sym to) cancelled-RunInv

  pub Reach-RunInv :
      (max_concurrency : ℕ) (s t : RunState)
      → RunInv plan.actions edges s
      → Reach plan max_concurrency s t
      → RunInv plan.actions edges t
  Reach-RunInv max_concurrency s t inv here = inv
  Reach-RunInv max_concurrency s u inv (next {t} r step) =
      Step-RunInv t (Reach-RunInv max_concurrency s t inv r) max_concurrency u step
