-- ===== src/Runtime/Scheduler/Examples.antt =====
-- A run of two actions, the first of which fails, and the theorems about the loop at it.
use susun.Prelude.{
  suc, ◌≤◌, ◌*◌, ◌≡◌, refl, some, none, true, false, List, [], ◌∷◌, text, list_eq, nat_eq, ◌=?◌,
  arith, Bool-cases, inl, inr, ◌⊎◌, length,
}
use susun.IndexMap.{IndexMap, contains, insert, insert_set, remove, get, keys, contains_key}
use susun.Engine.{EngineSnapshot}
use susun.Plan.{ActionId, PlanActionNode, no_op, safe, resource_missing, down}
use susun.Plan.Execution.{ExecutionPlan, current_schema}
use susun.Plan.Dag.{ok, topological_action_order}
use susun.Plan.Dag.Filled.{dependencies_of}
use susun.Plan.Dag.Correct.{IsWellTyped}
use susun.Runtime.{ActionStatus, pending, ActionExecutionResult, pending_result}
use susun.Runtime.Summary.{counted}
use susun.Runtime.Scheduler.{
  RunState, start, launch, skip, finish, final_report, Step, launched, finished, Reach, here, next,
}
use susun.Runtime.Scheduler.Invariant.{status_of}
use susun.Runtime.Scheduler.Outcomes.{AllSucceeded}
use susun.Runtime.Scheduler.Abstract.{Decides, Refines}
use susun.Runtime.Scheduler.Progress.{rounds}
use susun.Runtime.Scheduler.Correct.{
  running_dependencies_succeeded, reported_outcome, launch_no_error, Reach-Refines, rounds_bound,
  not_stuck, all_completed, final_report_counted, running_bound,
}

abbrev node : ActionId → List ActionId → PlanActionNode
node id dependencies = record {
  id = id;
  action = no_op id (text "nothing");
  dependencies = dependencies;
  reason = record { code = resource_missing; message = [] };
  safety = safe;
}

abbrev chain : IndexMap ActionId PlanActionNode
chain = (text "b", node (text "b") (text "a" ∷ [])) ∷ (text "a", node (text "a") []) ∷ []

abbrev plan : ExecutionPlan
plan = record {
  schema_version = current_schema;
  plan_id = text "plan";
  project = record { name = text "demo"; working_set = text "w" };
  operation = down;
  created_at = none;
  actions = chain;
  summary = record {
    total_actions = 2;
    safe_actions = 2;
    caution_actions = 0;
    destructive_actions = 0;
  };
  diagnostics = record { diagnostics = []; next_ordinal = 0 };
}

abbrev snapshot : EngineSnapshot
snapshot = record { observed_at = 0; containers = []; networks = []; volumes = []; images = [] }

abbrev order : List ActionId
order = text "a" ∷ text "b" ∷ []

returned : topological_action_order plan.actions ≡ some (ok order)
unfolding topological_action_order get keys contains insert insert_set contains_key
returned = refl

typed : IsWellTyped plan.actions
unfolding dependencies_of get keys contains
typed = record {
  keys_distinct = (refl, (refl, tt));
  dependencies_distinct = λ id. elim (Bool-cases (text "b" =? id)) [
    | inl b ↦ rw b (refl, tt)
    | inr other ↦ elim (Bool-cases (text "a" =? id)) [
      | inl a ↦ rw (other, a) tt
      | inr neither ↦ rw (other, neither) tt
    ]
  ];
}

abbrev lost : ActionExecutionResult
lost = record (pending_result (text "a")) { status = ActionStatus.failed; attempts = 1 }

-- `a` runs, `a` has failed, and `b` is skipped.
abbrev state_1 : RunState
state_1 = record (start plan snapshot order) { ready = []; running = text "a" ∷ [] }

abbrev state_2 : RunState
state_2 = finish (node (text "a") []) (text "a") lost state_1

abbrev state_3 : RunState
state_3 = skip 7 (text "b") (record state_2 { ready = [] })

launched_a : Step plan 1 (start plan snapshot order) state_1
unfolding start launch get keys contains insert insert_set
launched_a = launched 3 refl refl

finished_a : Step plan 1 state_1 state_2
unfolding start get keys contains insert insert_set
finished_a = finished (text "a") (node (text "a") []) lost refl refl refl (inr refl) refl

launched_b : Step plan 1 state_2 state_3
unfolding start launch finish get keys contains insert insert_set remove
launched_b = launched 7 refl refl

run_1 : Reach plan 1 (start plan snapshot order) state_1
run_1 = next here launched_a

run_3 : Reach plan 1 (start plan snapshot order) state_3
run_3 = next (next run_1 finished_a) launched_b

running_dependencies_succeeded_example :
    AllSucceeded (status_of state_1.report) (dependencies_of plan.actions (text "a"))
unfolding contains
running_dependencies_succeeded_example =
    running_dependencies_succeeded plan typed order returned snapshot 1 state_1 run_1 (text "a")
      refl

reported_outcome_example :
    ((contains state_3.completed (text "b") ≡ true)
      × (st : ActionStatus) × (status_of state_3.report (text "b") ≡ some st)
      × Decides (status_of state_3.report) (dependencies_of plan.actions (text "b")) st)
    ⊎ ((contains state_3.completed (text "b") ≡ false)
        × (status_of state_3.report (text "b") ≡ some pending))
unfolding contains keys
reported_outcome_example =
    reported_outcome plan typed order returned snapshot 1 state_3 run_3 (text "b") refl

launch_no_error_example : (t : RunState) × (launch plan 3 state_1.ready state_1 ≡ some t)
launch_no_error_example = launch_no_error plan typed order returned snapshot 1 state_1 run_1 3

Reach-Refines_example : Refines plan.actions state_1 state_2
Reach-Refines_example =
    Reach-Refines plan typed order returned snapshot 1 state_1 run_1 state_2 finished_a

rounds_bound_example : rounds run_3 ≤ 2 * length (keys plan.actions)
rounds_bound_example = rounds_bound plan typed order returned snapshot 1 state_3 run_3

not_stuck_example :
    (t : RunState) × (step : Step plan 1 state_1 t) × (rounds (next run_1 step)
      ≡ suc (rounds run_1))
unfolding start
not_stuck_example = not_stuck plan typed order returned snapshot 1 state_1 run_1 refl

all_completed_example : contains state_3.completed (text "b") ≡ true
unfolding start launch finish skip get keys contains insert insert_set remove
all_completed_example =
    all_completed plan typed order returned snapshot 1 state_3 run_3 (omega arith) refl refl
      (text "b") refl

final_report_counted_example : counted (final_report 9 state_1).summary ≡ length (keys plan.actions)
final_report_counted_example =
    final_report_counted plan typed order returned snapshot 1 state_1 run_1 9

running_bound_example : length state_1.running ≤ 1
running_bound_example = running_bound plan order snapshot 1 state_1 run_1
