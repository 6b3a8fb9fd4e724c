-- ===== src/Runtime/Actions/Retry/Total.antt =====
-- crates/susun-runtime/src/runtime.rs: `execute_action_traced` ends with a result.
use susun.Prelude.{
  ℕ, zero, suc, ◌+◌, ◌*◌, ◌≤◌, ◌≡◌, refl, true, false, Option, none, some, arith, Bool-cases, inl,
  inr, ◌⊎◌,
}
use Prim.Native.Nat.{max}
use susun.Engine.Endpoint.{EngineResult, ok, err}
use susun.Engine.Errors.{EngineError, redacted_message}
use susun.Engine.Operations.{Engine}
use susun.Plan.{
  ActionId, PlanAction, verify_build_inputs, build_image, pull_image, create_network, create_volume,
  create_container, start_container, wait_for_dependency, stop_container, remove_container,
  remove_network, remove_volume, rename_container, recreate_container, preserve_volume,
  verify_replacement, remove_orphan, scale_up_replica, scale_down_replica, no_op,
}
use susun.Plan.Execution.{ExecutionPlan}
use susun.Runtime.{ActionOutput, succeeded, failed, ActionExecutionResult}
use susun.Runtime.Outputs.{RuntimeOutputs}
use susun.Runtime.Actions.{RuntimeOptions, execute_action_inner, finished}
use susun.Runtime.Actions.Waiting.{IsTimed, wait_loop_total}
use susun.Runtime.Actions.Retry.{
  is_pull, should_retry, Execution, attempted, retry_loop, execution_result, execute_action_traced,
}

-- A result says how an action ended: with an output, or with the message of an error.
abbrev pub IsResult : ActionExecutionResult → Type 0
IsResult r =
    ((r.status ≡ succeeded) × (r.error ≡ none) × ((o : ActionOutput) × (r.output ≡ some o)))
    ⊎ ((r.status ≡ failed)
        × (r.output ≡ none)
        × ((e : EngineError) × (r.error ≡ some (redacted_message e))))

module _ {W : Type 0} (engine : Engine W) (options : RuntimeOptions) (plan : ExecutionPlan)
    (timed : IsTimed engine) (wait_fuel : ℕ)
    (enough : options.dependency_wait_timeout ≤ wait_fuel * options.dependency_poll_interval)
    (outputs : RuntimeOutputs) where
  execute_action_inner_total :
      (action : PlanAction) (w : W)
      → (x : EngineResult ActionOutput EngineError × W) × (execute_action_inner engine options plan
            (suc wait_fuel)
            action
            outputs
            w
          ≡ some x)
  unfolding execute_action_inner
  execute_action_inner_total (wait_for_dependency dependent dependency condition) w =
      let (x, eq) =
        wait_loop_total engine options plan timed wait_fuel (engine.now w) dependency condition w
          (omega arith) in
      (finished engine options plan x, rw (eq, execute_action_inner) refl)
  execute_action_inner_total (verify_build_inputs identity) w = (_, refl)
  execute_action_inner_total (build_image identity build image) w = (_, refl)
  execute_action_inner_total (pull_image image) w = (_, refl)
  execute_action_inner_total (create_network identity name) w = (_, refl)
  execute_action_inner_total (create_volume identity name) w = (_, refl)
  execute_action_inner_total (create_container action) w = (_, refl)
  execute_action_inner_total (start_container identity) w = (_, refl)
  execute_action_inner_total (stop_container identity) w = (_, refl)
  execute_action_inner_total (remove_container identity) w = (_, refl)
  execute_action_inner_total (remove_network identity) w = (_, refl)
  execute_action_inner_total (remove_volume identity) w = (_, refl)
  execute_action_inner_total (rename_container identity from to) w = (_, refl)
  execute_action_inner_total (recreate_container identity strategy) w = (_, refl)
  execute_action_inner_total (preserve_volume identity reason) w = (_, refl)
  execute_action_inner_total (verify_replacement identity) w = (_, refl)
  execute_action_inner_total (remove_orphan resource kind) w = (_, refl)
  execute_action_inner_total (scale_up_replica identity) w = (_, refl)
  execute_action_inner_total (scale_down_replica identity) w = (_, refl)
  execute_action_inner_total (no_op resource description) w = (_, refl)

  module _ (action : PlanAction) where
    abbrev loop : (fuel attempts : ℕ) → W → Option (Execution W)
    loop = retry_loop engine options plan (suc wait_fuel) action outputs

    -- What the loop leaves, `attempts` attempts before it.
    record Tried (attempts : ℕ) (e : Execution W) : Type 0 where
      more : attempts + 1 ≤ e.attempts
      bounded : e.attempts ≤ max (attempts + 1) options.retry_policy.max_attempts
      once : is_pull action ≡ false → e.attempts ≡ attempts + 1

    retry_allowed :
        (error : EngineError) (attempts : ℕ)
        → should_retry options.retry_policy action error attempts ≡ true
        → (attempts + 1 ≤ options.retry_policy.max_attempts) × (is_pull action ≡ true)
    unfolding should_retry
    retry_allowed error attempts h = (ground arith, ground arith)

    attempted_total :
        (attempts : ℕ) (again : W → Option (Execution W))
        (x : EngineResult ActionOutput EngineError × W)
        → ((attempts + 2 ≤ options.retry_policy.max_attempts)
            → (e : Execution W) × (again x.1 ≡ some e) × Tried (attempts + 1) e)
        → (e : Execution W) × (attempted engine options plan
              (suc wait_fuel)
              action
              outputs
              (attempts + 1)
              again
              x
            ≡ some e)
          × Tried attempts e
    attempted_total attempts again (ok out, w) later =
        (_, refl, record { more = omega arith; bounded = omega arith; once = λ _. refl })
    attempted_total attempts again (err e, w) later =
        elim (Bool-cases (should_retry options.retry_policy action e (attempts + 1))) [
          | inl allowed ↦
              let (within, pull) = retry_allowed e (attempts + 1) allowed in
              let (x, eq, t) = later (omega arith) in
              (
                x,
                rw allowed eq,
                record {
                  more = omega (arith, t.more);
                  bounded = omega (arith, t.bounded);
                  once = λ other. cc;
                },
              )
          | inr over ↦ (
            record { attempts = attempts + 1; result = err e; world = w },
            rw over refl,
            record { more = omega arith; bounded = omega arith; once = λ _. refl },
          )
        ]

    retry_loop_total :
        (fuel attempts : ℕ) (w : W)
        → options.retry_policy.max_attempts ≤ attempts + 1 + fuel
        → (e : Execution W) × (loop (suc fuel) attempts w ≡ some e) × Tried attempts e
    unfolding retry_loop
    retry_loop_total zero attempts w h =
        let (x, eq) = execute_action_inner_total action w in
        let (e, ends, t) =
          attempted_total attempts (λ w1. loop zero (attempts + 1) w1) x
            (λ more. absurd (omega arith)) in
        (e, rw (eq, retry_loop) ends, t)
    retry_loop_total (suc fuel) attempts w h =
        let (x, eq) = execute_action_inner_total action w in
        let (e, ends, t) =
          attempted_total attempts (λ w1. loop (suc fuel) (attempts + 1) w1) x
            (λ more. retry_loop_total fuel (attempts + 1) x.1 (omega arith)) in
        (e, rw (eq, retry_loop) ends, t)

    execution_result-IsResult :
        (id : ActionId) (started : ℕ) (e : Execution W)
        → IsResult
            (execution_result engine options plan (suc wait_fuel) action outputs id started e)
    execution_result-IsResult id started e = of_result e.attempts e.world e.result
      where
        of_result :
            (n : ℕ) (w : W) (r : EngineResult ActionOutput EngineError)
            → IsResult (
                execution_result engine options plan
                  (suc wait_fuel)
                  action
                  outputs
                  id
                  started
                  (record { attempts = n; result = r; world = w }))
        of_result n w (ok out) = inl (refl, refl, (out, refl))
        of_result n w (err error) = inr (refl, refl, (error, refl))

    attempts-execution_result :
        (id : ActionId) (started : ℕ) (e : Execution W)
        → (execution_result engine options plan
            (suc wait_fuel)
            action
            outputs
            id
            started
            e).attempts
          ≡ e.attempts
    attempts-execution_result id started e = of_result e.attempts e.world e.result
      where
        of_result :
            (n : ℕ) (w : W) (r : EngineResult ActionOutput EngineError)
            → (execution_result engine options plan
                (suc wait_fuel)
                action
                outputs
                id
                started
                (record { attempts = n; result = r; world = w })).attempts
              ≡ n
        of_result n w (ok out) = refl
        of_result n w (err error) = refl

    -- If no call of the engine turns the clock back, a sleep takes its time, and the polls that the fuel
    -- allows take as long as the timeout, then the execution of an action ends with a result: it succeeded
    -- with an output, or failed with a redacted message. It took at least one attempt, at most as many as
    -- the policy allows (or one), and exactly one for an action that is no pull of an image.
    pub execute_action_traced_total :
        (id : ActionId) (w : W)
        → (r : ActionExecutionResult) × ((w' : W) × (execute_action_traced engine options plan
                (suc wait_fuel)
                action
                outputs
                (suc options.retry_policy.max_attempts)
                id
                w
              ≡ some (r, w')))
          × IsResult r
          × (1 ≤ r.attempts)
          × (r.attempts ≤ max 1 options.retry_policy.max_attempts)
          × (is_pull action ≡ false → r.attempts ≡ 1)
    unfolding execute_action_traced
    execute_action_traced_total id w =
        let (e, eq, t) = retry_loop_total options.retry_policy.max_attempts 0 w (omega arith) in
        let r =
          execution_result engine options plan (suc wait_fuel) action outputs id (engine.now w) e in
        let same = attempts-execution_result id (engine.now w) e in
        (
          r,
          (e.world, rw (eq, execute_action_traced) refl),
          execution_result-IsResult id (engine.now w) e,
          omega (arith, same, t.more),
          omega (arith, same, t.bounded),
          λ other. omega (arith, same, t.once other),
        )
