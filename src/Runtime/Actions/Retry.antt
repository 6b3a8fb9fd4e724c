-- ===== src/Runtime/Actions/Retry.antt =====
-- crates/susun-runtime/src/retry.rs, and the loop of `execute_action_traced` in src/runtime.rs: an action is
-- tried again while the policy allows it.
pub mod Total
use susun.Prelude.{
  ℕ, zero, suc, ◌+◌, Bool, true, false, ◌&&◌, Option, none, some, leb, if◌then◌else◌,
}
use susun.Engine.Endpoint.{EngineResult, ok, err}
use susun.Engine.Errors.{
  EngineOperation, pull_image, EngineError, connection, api, redacted_message,
}
use susun.Engine.Operations.{Engine}
use susun.Plan.{ActionId, PlanAction}
use susun.Plan.Execution.{ExecutionPlan}
use susun.Runtime.{ActionOutput, succeeded, failed, ActionExecutionResult}
use susun.Runtime.Outputs.{RuntimeOutputs}
use susun.Runtime.Actions.{RetryPolicy, RuntimeOptions, execute_action_inner}

-- `*operation == EngineOperation::PullImage`
abbrev pub is_pull_operation : EngineOperation → Bool
is_pull_operation pull_image = true
is_pull_operation _ = false

abbrev pub is_transient_pull_error : EngineError → Bool
is_transient_pull_error (connection _) = true
is_transient_pull_error (api operation _) = is_pull_operation operation
is_transient_pull_error _ = false

-- `matches!(action, PlanAction::PullImage(_))`
abbrev pub is_pull : PlanAction → Bool
is_pull (PlanAction.pull_image _) = true
is_pull _ = false

unfoldable pub should_retry : RetryPolicy → PlanAction → EngineError → (attempts : ℕ) → Bool
should_retry policy action error attempts =
    if leb policy.max_attempts attempts
    then false
    else is_pull action && is_transient_pull_error error

-- The result of the loop: the number of attempts, the result of the last one, and the world behind it.
pub record Execution (W : Type 0) : Type 0 where
  pub attempts : ℕ
  pub result : EngineResult ActionOutput EngineError
  pub world : W

module _ {W : Type 0} (engine : Engine W) (options : RuntimeOptions) (plan : ExecutionPlan)
    (wait_fuel : ℕ) (action : PlanAction) (outputs : RuntimeOutputs) where
  -- The `match` on the result of an attempt; `again` is the next round.
  abbrev pub attempted :
      (attempts : ℕ) (again : W → Option (Execution W))
      → EngineResult ActionOutput EngineError × W
      → Option (Execution W)
  attempted attempts again (ok output, w) =
      some (record { attempts = attempts; result = ok output; world = w })
  attempted attempts again (err e, w) =
      if should_retry options.retry_policy action e attempts
      then again w
      else some (record { attempts = attempts; result = err e; world = w })

  -- The loop after `attempts` attempts: `none` when the fuel runs out.
  unfoldable pub retry_loop : (fuel attempts : ℕ) → W → Option (Execution W)
  unfolding execute_action_inner should_retry
  retry_loop zero attempts w = none
  retry_loop (suc fuel) attempts w =
      let again = λ (w1 : W). retry_loop fuel (attempts + 1) w1 in
      elim (execute_action_inner engine options plan wait_fuel action outputs w) [
        | none ↦ none
        | some r ↦ attempted (attempts + 1) again r
      ]

  abbrev pub execution_result : ActionId → (started_at : ℕ) → Execution W → ActionExecutionResult
  execution_result action_id started_at e = elim e.result [
    | ok output ↦ record {
      action_id = action_id;
      status = succeeded;
      started_at = some started_at;
      finished_at = some (engine.now e.world);
      attempts = e.attempts;
      output = some output;
      error = none;
    }
    | err error ↦ record {
      action_id = action_id;
      status = failed;
      started_at = some started_at;
      finished_at = some (engine.now e.world);
      attempts = e.attempts;
      output = none;
      error = some (redacted_message error);
    }
  ]

  unfoldable pub execute_action_traced :
      (fuel : ℕ) → ActionId → W → Option (ActionExecutionResult × W)
  unfolding retry_loop redacted_message
  execute_action_traced fuel action_id w = elim (retry_loop fuel 0 w) [
    | none ↦ none
    | some e ↦ some (execution_result action_id (engine.now w) e, e.world)
  ]
