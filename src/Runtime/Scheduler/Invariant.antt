-- ===== src/Runtime/Scheduler/Invariant.antt =====
-- crates/susun-runtime/src/runtime.rs: what holds in front of every round of the loop.
use susun.Prelude.{
  ℕ, ◌-◌, ◌≡◌, refl, Bool, true, false, not, ◌||◌, Option, none, some, List, [], ◌∷◌, ◌++◌, arith,
  list_eq, nat_eq, list_beq_iff, =?_refl, ◌==◌, inl, inr, Bool-cases, Option-cases, ◌⊎◌,
}
use susun.IndexMap.{IndexMap, contains, insert_set, contains-insert_set, get, insert, keys}
use susun.Plan.{ActionId, PlanActionNode}
use susun.Plan.Dag.Filled.{dependencies_of}
use susun.Kahn.{release}
use susun.Kahn.Counting.{depends, done_of_open_count}
use susun.Kahn.Invariant.{IsGraph, Inv}
use susun.Runtime.{ActionStatus, pending, succeeded, skipped_dependency_failed, ExecutionReport}
use susun.Runtime.Graph.{release_all}
use susun.Runtime.Scheduler.{RunState, any_failed, is_succeeded}

-- The status of an action in the report.
abbrev pub status_of : ExecutionReport → ActionId → Option ActionStatus
status_of report id = elim (get report.actions id) [ none ↦ none | some r ↦ some r.status ]

abbrev pub is_skipped : ActionStatus → Bool
is_skipped skipped_dependency_failed = true
is_skipped _ = false

-- Without a completed dependent, `release_dependents` is the inner loop of Kahn.
pub release_all-release :
    (ds completed ready : List ActionId) (remaining : IndexMap ActionId ℕ)
    → ((d : ActionId) → contains ds d ≡ true → contains completed d ≡ false)
    → release_all ds completed ready remaining ≡ release ds ready remaining
unfolding release_all release contains
release_all-release [] completed ready remaining apart = refl
release_all-release (d ∷ ds) completed ready remaining apart =
    elim (Option-cases (get remaining d)) [
      | inl free ↦ ground (
        arith,
        free,
        release_all-release ds completed ready remaining (λ x m. apart x (ground (arith, m))),
      )
      | inr (n, counted) ↦ elim (Bool-cases (n - 1 == 0)) [
        | inl last ↦ ground (
          arith,
          counted,
          last,
          apart d (ground (arith, =?_refl d)),
          release_all-release ds completed (ready ++ d ∷ []) (insert d (n - 1) remaining)
              (λ x m. apart x (ground (arith, m))),
        )
        | inr more ↦ ground (
          arith,
          counted,
          more,
          release_all-release ds completed ready (insert d (n - 1) remaining)
              (λ x m. apart x (ground (arith, m))),
        )
      ]
    ]

pub any_failed-insert_set :
    (ds : List ActionId) (id : ActionId) (lost : List ActionId)
    → any_failed ds (insert_set id lost) ≡ (any_failed ds lost || contains ds id)
unfolding any_failed contains
any_failed-insert_set [] id lost = refl
any_failed-insert_set (d ∷ ds) id lost = ground (
  arith,
  any_failed-insert_set ds id lost,
  contains-insert_set id lost d,
  list_beq_iff d id,
  list_beq_iff id d,
)

-- The graph of the plan: `edges` holds the dependents of each action.
pub record IsPlanned (actions : IndexMap ActionId PlanActionNode)
    (edges : IndexMap ActionId (List ActionId)) : Type 0 where
  pub graph : IsGraph edges (keys actions)
  pub edges_eq : (v u : ActionId) → depends edges v u ≡ contains (dependencies_of actions v) u
  pub known :
      (v u : ActionId)
      → contains (dependencies_of actions v) u ≡ true
      → contains (keys actions) u ≡ true

-- What the report says of a completed action.
pub record Outcome (actions : IndexMap ActionId PlanActionNode) (s : RunState) (k : ActionId)
    : Type 0 where
  pub status : ActionStatus
  pub reported : status_of s.report k ≡ some status
  pub decided :
      (status ≡ succeeded) ⊎ ((status ≡ ActionStatus.failed) ⊎ (status ≡ skipped_dependency_failed))
  pub counted_failed : contains s.failed k ≡ not (is_succeeded status)
  pub skipped_iff : any_failed (dependencies_of actions k) s.failed ≡ is_skipped status

pub record RunInv (actions : IndexMap ActionId PlanActionNode)
    (edges : IndexMap ActionId (List ActionId)) (s : RunState) : Type 0 where
  pub edges_kept : s.graph.dependents ≡ edges
  pub kahn :
      Inv edges (keys actions) (s.running ++ s.ready) s.graph.remaining_dependencies s.completed
  pub failed_completed : (k : ActionId) → contains s.failed k ≡ true → contains s.completed k ≡ true
  pub running_clear :
      (k : ActionId)
      → contains s.running k ≡ true
      → any_failed (dependencies_of actions k) s.failed ≡ false
  pub waiting :
      (k : ActionId)
      → contains (keys actions) k ≡ true
      → contains s.completed k ≡ false
      → status_of s.report k ≡ some pending
  pub settled : (k : ActionId) → contains s.completed k ≡ true → Outcome actions s k

module _ (actions : IndexMap ActionId PlanActionNode) (edges : IndexMap ActionId (List ActionId))
    (p : IsPlanned actions edges) (s : RunState) (inv : RunInv actions edges s) where
  -- All dependencies of an action that is completed, runs or is ready are completed.
  pub deps_completed :
      (k u : ActionId)
      → contains (s.completed ++ (s.running ++ s.ready)) k ≡ true
      → contains (dependencies_of actions k) u ≡ true
      → contains s.completed u ≡ true
  deps_completed k u m d =
      let node = inv.kahn.queue_nodes k m in
      done_of_open_count edges k u s.completed (keys actions)
        (ground (arith, inv.kahn.queued k node)) (p.known k u d) (rw (p.edges_eq k u) d)

  -- An action that is not completed is no dependency of one that has started.
  pub not_needed :
      (id k : ActionId)
      → contains s.completed id ≡ false
      → contains (s.completed ++ (s.running ++ s.ready)) k ≡ true
      → contains (dependencies_of actions k) id ≡ false
  not_needed id k new m = elim (Bool-cases (contains (dependencies_of actions k) id)) [
    | inl need ↦ ground (arith, deps_completed k id m need)
    | inr other ↦ other
  ]

  pub any_failed_kept :
      (id k : ActionId)
      → contains s.completed id ≡ false
      → contains (s.completed ++ (s.running ++ s.ready)) k ≡ true
      → any_failed (dependencies_of actions k) (insert_set id s.failed)
        ≡ any_failed (dependencies_of actions k) s.failed
  any_failed_kept id k new m =
      ground (
        arith,
        any_failed-insert_set (dependencies_of actions k) id s.failed,
        not_needed id k new m,
      )
