-- ===== src/Runtime/Actions/Examples.antt =====
-- An engine whose world is a clock and whose pulls fail, and the theorems about one action at it.
use susun.Prelude.{ℕ, ◌+◌, ◌≤◌, ◌≡◌, some, none, [], text, arith, false}
use Prim.Native.Nat.{max}
use susun.Engine.{EngineSnapshot, new_instance}
use susun.Engine.Endpoint.{ok, err}
use susun.Engine.Errors.{connection, api_negotiation}
use susun.Engine.Operations.{Engine}
use susun.Plan.{PlanAction, wait_for_dependency, down}
use susun.Plan.Execution.{ExecutionPlan, current_schema}
use susun.Runtime.{ActionExecutionResult}
use susun.Runtime.Outputs.{empty_outputs}
use susun.Runtime.Actions.{default_options}
use susun.Runtime.Actions.Waiting.{IsTimed}
use susun.Runtime.Actions.Retry.{is_pull, execute_action_traced}
use susun.Runtime.Actions.Retry.Total.{IsResult, execute_action_traced_total}

abbrev empty_snapshot : EngineSnapshot
empty_snapshot = record {
  observed_at = 0;
  containers = [];
  networks = [];
  volumes = [];
  images = [];
}

abbrev clock : Engine ℕ
clock = record {
  snapshot = λ p w. (ok empty_snapshot, w);
  pull_image = λ r w. (err (connection (api_negotiation (text "refused"))), w);
  create_network = λ r w. (ok (record { id = text "n" }), w);
  create_volume = λ r w. (ok (record { id = text "v" }), w);
  create_container = λ r w. (ok (record { id = text "c" }), w);
  start_container = λ r w. (ok tt, w);
  stop_container = λ r w. (ok tt, w);
  remove_container = λ r o w. (ok tt, w);
  remove_network = λ r w. (ok tt, w);
  remove_volume = λ r w. (ok tt, w);
  now = λ w. w;
  sleep = λ d w. w + d;
}

clock-IsTimed : IsTimed clock
clock-IsTimed = record { snapshot_later = λ p w. omega arith; sleep_later = λ d w. omega arith }

abbrev plan : ExecutionPlan
plan = record {
  schema_version = current_schema;
  plan_id = text "plan";
  project = record { name = text "demo"; working_set = text "w1" };
  operation = down;
  created_at = none;
  actions = [];
  summary = record {
    total_actions = 0;
    safe_actions = 0;
    caution_actions = 0;
    destructive_actions = 0;
  };
  diagnostics = record { diagnostics = []; next_ordinal = 0 };
}

abbrev wait : PlanAction
wait =
    wait_for_dependency (new_instance (text "w1") (text "web") 0)
      (new_instance (text "w1") (text "db") 0) (text "ServiceHealthy")

-- A wait that is never satisfied ends after a minute.
execute_action_traced_total_example :
    (r : ActionExecutionResult) × ((w' : ℕ) × (execute_action_traced clock default_options plan 121
          wait empty_outputs 3
          (text "act")
          0
        ≡ some (r, w')))
    × IsResult r
    × (1 ≤ r.attempts)
    × (r.attempts ≤ max 1 default_options.retry_policy.max_attempts)
    × (is_pull wait ≡ false → r.attempts ≡ 1)
execute_action_traced_total_example =
    execute_action_traced_total clock default_options plan clock-IsTimed 120 (omega arith)
      empty_outputs wait (text "act") 0
