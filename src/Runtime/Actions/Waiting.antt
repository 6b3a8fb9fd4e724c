-- ===== src/Runtime/Actions/Waiting.antt =====
-- crates/susun-runtime/src/runtime.rs: the loop of `wait_for_dependency` ends, if the clock goes on.
use susun.Prelude.{
  ℕ, zero, suc, ◌+◌, ◌-◌, ◌*◌, ◌≤◌, ◌≡◌, refl, false, Option, some, Text, arith, leb, Bool-cases,
  inl, inr,
}
use susun.Engine.{ServiceInstanceId, ProjectIdentity, EngineSnapshot}
use susun.Engine.Endpoint.{EngineResult, ok, err}
use susun.Engine.Errors.{EngineError}
use susun.Engine.Operations.{Engine}
use susun.Plan.Execution.{ExecutionPlan}
use susun.Runtime.Actions.{
  RuntimeOptions, dependency_condition_met, wait_round, wait_loop, wait_error,
}

-- What the loop relies on: no call turns the clock back, and a sleep takes its time.
pub record IsTimed {W : Type 0} (engine : Engine W) : Type 0 where
  pub snapshot_later :
      (p : ProjectIdentity) (w : W) → engine.now w ≤ engine.now (engine.snapshot p w).1
  pub sleep_later : (d : ℕ) (w : W) → engine.now w + d ≤ engine.now (engine.sleep d w)

module _ {W : Type 0} (engine : Engine W) (options : RuntimeOptions) (plan : ExecutionPlan)
    (timed : IsTimed engine) where
  abbrev interval : ℕ
  interval = options.dependency_poll_interval

  one_round :
      (started : ℕ) (dependency : ServiceInstanceId) (condition : Text)
      (later : W → Option (EngineResult (Unit {0}) EngineError × W))
      (seen : EngineResult EngineSnapshot EngineError × W)
      → (leb options.dependency_wait_timeout (engine.now seen.1 - started) ≡ false
          → (x : EngineResult (Unit {0}) EngineError × W) × (later (engine.sleep interval seen.1)
              ≡ some x))
      → (x : EngineResult (Unit {0}) EngineError × W) × (wait_round engine options plan started
            dependency condition later seen
          ≡ some x)
  unfolding wait_round
  one_round started dependency condition later (err e, w) rest = ((err e, w), refl)
  one_round started dependency condition later (ok snapshot, w) rest =
      elim (Bool-cases (dependency_condition_met snapshot dependency condition)) [
        | inl met ↦ ((ok tt, w), rw met refl)
        | inr unmet ↦
            elim (Bool-cases (leb options.dependency_wait_timeout (engine.now w - started))) [
              | inl late ↦ ((err wait_error, w), rw (unmet, late) refl)
              | inr early ↦ let (x, eq) = rest early in (x, rw (unmet, early) eq)
            ]
      ]

  -- A round of the loop takes the time of a sleep at least.
  pub wait_loop_total :
      (fuel started : ℕ) (dependency : ServiceInstanceId) (condition : Text) (w : W)
      → options.dependency_wait_timeout + started ≤ engine.now w + fuel * interval
      → (x : EngineResult (Unit {0}) EngineError × W) × (wait_loop engine options plan
            (suc fuel)
            started
            dependency
            condition
            w
          ≡ some x)
  unfolding wait_loop
  wait_loop_total zero started dependency condition w h =
      one_round started dependency condition
        (λ w1. wait_loop engine options plan zero started dependency condition w1)
        (engine.snapshot plan.project w)
        (λ early. absurd (ground (arith, timed.snapshot_later plan.project w, early, h)))
  wait_loop_total (suc fuel) started dependency condition w h =
      let w1 = (engine.snapshot plan.project w).1 in
      one_round started dependency condition
        (λ w2. wait_loop engine options plan (suc fuel) started dependency condition w2)
        (engine.snapshot plan.project w)
        (λ early.
          wait_loop_total fuel started dependency condition (engine.sleep interval w1)
            (grind (arith, timed.snapshot_later plan.project w, timed.sleep_later interval w1, h)))
