-- ===== src/Runtime/Scheduler.antt =====
-- crates/susun-runtime/src/runtime.rs: the loop of `apply_cancellable_inner` as a step relation. An
-- action that runs is a future: the engine decides which one ends next, and with which result. The
-- token may be cancelled between any two steps. The events for a listener are not modelled.
pub mod Invariant
pub mod Completing
pub mod Moves
pub mod Rounds
pub mod Reached
pub mod Starting
pub mod Outcomes
pub mod Abstract
pub mod Progress
pub mod Reporting
pub mod Correct
mod Examples
use susun.Prelude.{
  ℕ, Bool, true, false, not, ◌&&◌, ◌||◌, ◌⊎◌, ◌≡◌, Option, none, some, List, [], ◌∷◌, ◌++◌, list_eq,
  nat_eq, ltb, if◌then◌else◌, length,
}
use susun.IndexMap.{IndexMap, contains, insert_set, remove, get}
use susun.Engine.{EngineSnapshot}
use susun.Plan.{ActionId, PlanActionNode}
use susun.Plan.Execution.{ExecutionPlan}
use susun.Kahn.{dependents_of, ready_nodes}
use susun.Runtime.{
  ActionStatus, succeeded, ActionExecutionResult, ExecutionReport, pending_report, refresh_summary,
  set_result, mark_skipped, mark_remaining_cancelled,
}
use susun.Runtime.Graph.{RuntimeGraph, new_graph, release_all}
use susun.Runtime.Outputs.{RuntimeOutputs, outputs_of_snapshot, update_outputs}

-- The variables of the loop. A running future is the id of its action.
pub record RunState : Type 0 where
  pub graph : RuntimeGraph
  pub ready : List ActionId
  pub running : List ActionId
  pub failed : List ActionId
  pub completed : List ActionId
  pub outputs : RuntimeOutputs
  pub report : ExecutionReport
  pub cancelled : Bool

-- The variables in front of the loop, for the order that `topological_action_order` gave.
unfoldable pub start : ExecutionPlan → EngineSnapshot → (order : List ActionId) → RunState
unfolding new_graph ready_nodes outputs_of_snapshot pending_report
start plan snapshot order =
    let graph = new_graph plan.actions in
    record {
      graph = graph;
      ready = ready_nodes graph.remaining_dependencies order;
      running = [];
      failed = [];
      completed = [];
      outputs = outputs_of_snapshot snapshot;
      report = pending_report plan.plan_id plan.actions;
      cancelled = false;
    }

-- `has_failed_dependency`
unfoldable pub any_failed : (dependencies failed : List ActionId) → Bool
unfolding contains
any_failed [] failed = false
any_failed (d ∷ dependencies) failed = contains failed d || any_failed dependencies failed

-- `release_dependents`
unfoldable pub release_dependents : ActionId → RunState → RunState
unfolding release_all
release_dependents id s =
    let (ready, remaining) =
      release_all (dependents_of s.graph.dependents id) s.completed s.ready
        s.graph.remaining_dependencies in
    record s {
      graph = record { dependents = s.graph.dependents; remaining_dependencies = remaining };
      ready = ready;
    }

-- The branch of the inner loop for an action with a failed dependency.
unfoldable pub skip : (now : ℕ) → ActionId → RunState → RunState
unfolding release_dependents mark_skipped
skip now id s = release_dependents id (record s {
  report = mark_skipped now s.report id;
  failed = insert_set id s.failed;
  completed = insert_set id s.completed;
})

-- One round of the inner loop for the action `id`; `none` is the error `InternalInvariant`.
unfoldable pub launch_action : ExecutionPlan → (now : ℕ) → ActionId → RunState → Option RunState
unfolding any_failed skip
launch_action plan now id s =
    if contains s.completed id then some s else elim (get plan.actions id) [
      | none ↦ none
      | some node ↦
          if any_failed node.dependencies s.failed
          then some (skip now id s)
          else some (record s { running = s.running ++ id ∷ [] })
    ]

abbrev pub is_empty {ℓ} : {A : Type ℓ} → List A → Bool
is_empty [] = true
is_empty (x ∷ xs) = false

-- The condition of the inner loop, and that `pop_front` finds an action.
abbrev pub can_launch : (max_concurrency : ℕ) → RunState → Bool
can_launch max_concurrency s =
    not s.cancelled && (ltb (length s.running) max_concurrency && not (is_empty s.ready))

unfoldable pub launch :
    ExecutionPlan → (now : ℕ) → (ready : List ActionId) → RunState → Option RunState
unfolding launch_action
launch plan now [] s = some s
launch plan now (id ∷ ready) s = launch_action plan now id (record s { ready = ready })

abbrev pub is_succeeded : ActionStatus → Bool
is_succeeded succeeded = true
is_succeeded _ = false

-- The rest of the outer loop, after the future of `node` has ended with `result`.
unfoldable pub finish : PlanActionNode → ActionId → ActionExecutionResult → RunState → RunState
unfolding release_dependents update_outputs set_result
finish node id result s = release_dependents id (record s {
  running = remove id s.running;
  outputs = update_outputs node.action result s.outputs;
  report = set_result s.report id result;
  failed = if is_succeeded result.status then s.failed else insert_set id s.failed;
  completed = insert_set id s.completed;
})

-- What a future returns: `execute_action_traced` sets no other status.
abbrev pub IsReturned : ActionExecutionResult → Type 0
IsReturned result = (result.status ≡ succeeded) ⊎ (result.status ≡ ActionStatus.failed)

pub data Step (plan : ExecutionPlan) (max_concurrency : ℕ) (s : RunState) (t : RunState)
    : Type 0 where
  launched :
      (now : ℕ)
      → can_launch max_concurrency s ≡ true
      → launch plan now s.ready s ≡ some t
      → Step plan max_concurrency s t
  finished :
      (id : ActionId) (node : PlanActionNode) (result : ActionExecutionResult)
      → can_launch max_concurrency s ≡ false
      → contains s.running id ≡ true
      → get plan.actions id ≡ some node
      → IsReturned result
      → t ≡ finish node id result s
      → Step plan max_concurrency s t
  token_cancelled : t ≡ record s { cancelled = true } → Step plan max_concurrency s t

pub data Reach (plan : ExecutionPlan) (max_concurrency : ℕ) (s : RunState) : RunState → Type 0 where
  here : Reach plan max_concurrency s s
  next :
      {t u : RunState}
      → Reach plan max_concurrency s t
      → Step plan max_concurrency t u
      → Reach plan max_concurrency s u

-- The loop ends: nothing is launched and nothing runs.
abbrev pub has_ended : (max_concurrency : ℕ) → RunState → Bool
has_ended max_concurrency s = not (can_launch max_concurrency s) && is_empty s.running

-- The report that `apply_cancellable` returns.
unfoldable pub final_report : (now : ℕ) → RunState → ExecutionReport
unfolding mark_remaining_cancelled refresh_summary
final_report now s = refresh_summary (mark_remaining_cancelled now s.report s.completed)
