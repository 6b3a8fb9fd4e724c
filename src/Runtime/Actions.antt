-- ===== src/Runtime/Actions.antt =====
-- crates/susun-runtime/src/runtime.rs: the calls of the engine for one action (`execute_action_inner`), and
-- the wait for the condition of a dependency. `W` is the world that the calls change.
pub mod Waiting
pub mod Retry
mod Examples
use susun.Prelude.{
  ℕ, zero, suc, ◌-◌, Bool, true, false, ◌&&◌, ◌||◌, Option, none, some, List, [], ◌∷◌, Text, text,
  list_eq, nat_eq, ◌=?◌, leb, if◌then◌else◌, decimal,
}
use susun.IndexMap.{IndexMap, get, values}
use susun.Engine.{
  ServiceInstanceId, instance_eq, ContainerState, running, exited, HealthState, healthy,
  ObservedContainer, EngineSnapshot,
}
use susun.Engine.Endpoint.{EngineResult, ok, err}
use susun.Engine.Errors.{EngineError, unsupported}
use susun.Engine.Operations.{
  Engine, Call, and_then, missing, ContainerRef, NetworkRef, VolumeRef, CreateContainerRequest,
}
use susun.Plan.{
  PlanAction, verify_build_inputs, build_image, pull_image, create_network, create_volume,
  create_container, start_container, wait_for_dependency, stop_container, remove_container,
  remove_network, remove_volume, rename_container, recreate_container, preserve_volume,
  verify_replacement, remove_orphan, scale_up_replica, scale_down_replica, no_op,
  CreateContainerAction,
}
use susun.Plan.Execution.{ExecutionPlan}
use susun.Runtime.{ActionOutput, image, container, network, volume, no_output}
use susun.Runtime.Outputs.{RuntimeOutputs}
use susun.Runtime.Labels.{ResourceLabel, ownership_labels, ordinal}

-- `max_attempts` is a `u32`.
pub record RetryPolicy : Type 0 where
  pub max_attempts : ℕ

-- Durations are milliseconds.
pub record RuntimeOptions : Type 0 where
  pub max_concurrency : ℕ
  pub cancellation_grace_period : ℕ
  pub default_stop_timeout : ℕ
  pub retry_policy : RetryPolicy
  pub dependency_wait_timeout : ℕ
  pub dependency_poll_interval : ℕ

-- `RuntimeOptions::default`
abbrev pub default_options : RuntimeOptions
default_options = record {
  max_concurrency = 1;
  cancellation_grace_period = 10000;
  default_stop_timeout = 10000;
  retry_policy = record { max_attempts = 2 };
  dependency_wait_timeout = 60000;
  dependency_poll_interval = 500;
}

abbrev pub is_running : ContainerState → Bool
is_running running = true
is_running _ = false

abbrev pub is_exited : ContainerState → Bool
is_exited exited = true
is_exited _ = false

abbrev pub is_healthy : Option HealthState → Bool
is_healthy (some healthy) = true
is_healthy _ = false

-- The `match` on the condition.
abbrev pub meets : (condition : Text) → ObservedContainer → Bool
meets condition c =
    if condition =? text "ServiceStarted" || condition =? text "service_started"
    then is_running c.state
    else if condition =? text "ServiceHealthy" || condition =? text "service_healthy"
    then is_healthy c.health
    else if condition =? text "ServiceCompletedSuccessfully"
        || condition =? text "service_completed_successfully"
    then is_exited c.state
    else false

abbrev pub is_instance : Option ServiceInstanceId → ServiceInstanceId → Bool
is_instance none id = false
is_instance (some own) id = own =? id

unfoldable pub any_meets :
    (dependency : ServiceInstanceId) (condition : Text) → List ObservedContainer → Bool
any_meets dependency condition [] = false
any_meets dependency condition (c ∷ containers) =
    is_instance c.service_identity dependency && meets condition c
    || any_meets dependency condition containers

unfoldable pub dependency_condition_met :
    EngineSnapshot → (dependency : ServiceInstanceId) (condition : Text) → Bool
unfolding any_meets values
dependency_condition_met snapshot dependency condition =
    any_meets dependency condition (values snapshot.containers)

abbrev pub wait_error : EngineError
wait_error = unsupported (text "dependency condition was not satisfied before timeout")

-- `RuntimeOutputs::container_for`
unfoldable pub container_for :
    RuntimeOutputs → (service : Text) → EngineResult ContainerRef EngineError
unfolding get
container_for outputs service = elim (get outputs.containers service) [
  | none ↦ err (unsupported (text "container reference is unavailable for this action"))
  | some id ↦ ok (record { id = id })
]

-- `RuntimeOutputs::network_for`
unfoldable pub network_for : RuntimeOutputs → (name : Text) → EngineResult NetworkRef EngineError
unfolding get
network_for outputs name = elim (get outputs.networks name) [
  | none ↦ err (unsupported (text "network reference is unavailable for this action"))
  | some id ↦ ok (record { id = id })
]

-- `RuntimeOutputs::volume_for`
unfoldable pub volume_for : RuntimeOutputs → (name : Text) → EngineResult VolumeRef EngineError
unfolding get
volume_for outputs name = elim (get outputs.volumes name) [
  | none ↦ err (unsupported (text "volume reference is unavailable for this action"))
  | some id ↦ ok (record { id = id })
]

-- The request for a container, with the labels of its owner.
unfoldable pub container_request : ExecutionPlan → CreateContainerAction → CreateContainerRequest
unfolding ownership_labels
container_request plan action = record {
  project = plan.project;
  service = action.identity;
  name = action.name;
  image = action.image;
  command = action.command;
  entrypoint = action.entrypoint;
  environment = action.environment;
  container_labels = action.labels;
  ports = action.ports;
  volumes = action.volumes;
  configs = action.configs;
  secrets = action.secrets;
  networks = action.networks;
  healthcheck = action.healthcheck;
  restart = action.restart;
  labels =
      ownership_labels plan (ResourceLabel.service action.identity.service)
        (some (ordinal action.identity.replica));
}

module _ {W : Type 0} (engine : Engine W) (options : RuntimeOptions) (plan : ExecutionPlan) where
  -- One round of the loop of `wait_for_dependency`; `later` is the loop after the sleep.
  unfoldable pub wait_round :
      (started : ℕ) (dependency : ServiceInstanceId) (condition : Text)
      (later : W → Option (EngineResult (Unit {0}) EngineError × W))
      → EngineResult EngineSnapshot EngineError × W
      → Option (EngineResult (Unit {0}) EngineError × W)
  unfolding dependency_condition_met
  wait_round started dependency condition later (err e, w) = some (err e, w)
  wait_round started dependency condition later (ok snapshot, w) =
      if dependency_condition_met snapshot dependency condition
      then some (ok tt, w)
      else if leb options.dependency_wait_timeout (engine.now w - started)
      then some (err wait_error, w)
      else later (engine.sleep options.dependency_poll_interval w)

  -- The loop, on fuel: `none` when the fuel runs out.
  unfoldable pub wait_loop :
      (fuel started : ℕ) (dependency : ServiceInstanceId) (condition : Text)
      → W
      → Option (EngineResult (Unit {0}) EngineError × W)
  unfolding wait_round
  wait_loop zero started dependency condition w = none
  wait_loop (suc fuel) started dependency condition w =
      let later = λ (w1 : W). wait_loop fuel started dependency condition w1 in
      wait_round started dependency condition later (engine.snapshot plan.project w)

  abbrev pub finished :
      EngineResult (Unit {0}) EngineError × W → EngineResult ActionOutput EngineError × W
  finished r = and_then r (λ u w. (ok no_output, w))

  abbrev pub call_with :
      {R : Type 0} → EngineResult R EngineError → (R → Call W (Unit {0})) → Call W ActionOutput
  call_with (ok r) call w = finished (call r w)
  call_with (err e) call w = (err e, w)

  -- `fuel` is for the wait; the progress of a pull is not kept.
  unfoldable pub execute_action_inner :
      (fuel : ℕ)
      → PlanAction
      → RuntimeOutputs
      → W
      → Option (EngineResult ActionOutput EngineError × W)
  unfolding wait_loop container_for network_for volume_for container_request ownership_labels
  execute_action_inner fuel (verify_build_inputs identity) outputs w = some (ok no_output, w)
  execute_action_inner fuel (build_image identity build tag) outputs w = some (ok no_output, w)
  execute_action_inner fuel (pull_image reference) outputs w = some (
      and_then (engine.pull_image (record { image = reference; policy = missing }) w)
        (λ r w. (ok (image r.reference), w)))
  execute_action_inner fuel (create_network identity name) outputs w = some (
      and_then
        (engine.create_network
          (record {
            project = plan.project;
            name = name;
            labels = ownership_labels plan (ResourceLabel.network identity.network) none;
          })
          w)
        (λ r w. (ok (network r.id), w)))
  execute_action_inner fuel (create_volume identity name) outputs w = some (
      and_then
        (engine.create_volume
          (record {
            project = plan.project;
            name = name;
            labels = ownership_labels plan (ResourceLabel.volume identity.volume) none;
          })
          w)
        (λ r w. (ok (volume r.id), w)))
  execute_action_inner fuel (create_container action) outputs w = some (
      and_then (engine.create_container (container_request plan action) w)
        (λ r w. (ok (container r.id), w)))
  execute_action_inner fuel (start_container identity) outputs w =
      some (call_with (container_for outputs identity.service) engine.start_container w)
  execute_action_inner fuel (wait_for_dependency dependent dependency condition) outputs w =
      elim (wait_loop fuel (engine.now w) dependency condition w) [
        | none ↦ none
        | some r ↦ some (finished r)
      ]
  execute_action_inner fuel (stop_container identity) outputs w = some (
      call_with (container_for outputs identity.service)
        (λ r.
          engine.stop_container (record { container = r; timeout = options.default_stop_timeout }))
        w)
  execute_action_inner fuel (remove_container identity) outputs w = some (
      call_with (container_for outputs identity.service)
        (λ r.
          engine.remove_container r (record { remove_anonymous_volumes = false; force = false }))
        w)
  execute_action_inner fuel (remove_network identity) outputs w =
      some (call_with (network_for outputs identity.network) engine.remove_network w)
  execute_action_inner fuel (remove_volume identity) outputs w =
      some (call_with (volume_for outputs identity.volume) engine.remove_volume w)
  execute_action_inner fuel (rename_container identity from to) outputs w =
      some (err (unsupported (text "container rename during convergence replacement")), w)
  execute_action_inner fuel (recreate_container identity strategy) outputs w =
      some (ok no_output, w)
  execute_action_inner fuel (preserve_volume identity reason) outputs w = some (ok no_output, w)
  execute_action_inner fuel (verify_replacement identity) outputs w = some (ok no_output, w)
  execute_action_inner fuel (remove_orphan resource kind) outputs w = some (ok no_output, w)
  execute_action_inner fuel (scale_up_replica identity) outputs w = some (ok no_output, w)
  execute_action_inner fuel (scale_down_replica identity) outputs w = some (ok no_output, w)
  execute_action_inner fuel (no_op resource description) outputs w = some (ok no_output, w)
