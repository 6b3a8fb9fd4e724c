-- ===== src/Convergence/Diff.antt =====
-- crates/susun-convergence/src/diff.rs: the difference of desired and observed state.
pub mod Correct
use susun.Prelude.{
  ℕ, zero, suc, Bool, true, false, ◌||◌, Option, none, some, List, [], ◌∷◌, ◌++◌, Text, text,
  list_eq, nat_eq, ◌=?◌, not, if◌then◌else◌,
}
use susun.IndexMap.{IndexMap, get, insert}
use susun.Model.{ServiceName}
use susun.Engine.{
  ServiceInstanceId, new_instance, instance_eq, ObservedContainer, ContainerState, running, created,
  exited, paused, restarting, unknown, ObservedImageRef,
}
use susun.Convergence.{
  InstanceDifference, missing, unchanged, stopped_but_compatible, configuration_changed,
  runtime_state_drift, ownership_ambiguous, unsupported_observed_state, RuntimeDrift,
}
use susun.Convergence.Ownership.{OwnershipConflict}
use susun.Convergence.Deployment.{DesiredDeployment, ObservedDeployment}

-- `ConfigurationFingerprint` wraps a `String`.
abbrev pub DesiredInstanceFingerprints : Type 0
DesiredInstanceFingerprints = IndexMap ServiceInstanceId Text

-- `matches!(container.state, ContainerState::Unknown)`
abbrev pub is_unknown_state : ContainerState → Bool
is_unknown_state unknown = true
is_unknown_state _ = false

-- `matches!(container.image, ObservedImageRef::Unknown)`
abbrev pub is_unknown_image : ObservedImageRef → Bool
is_unknown_image unknown = true
is_unknown_image _ = false

-- The last `match`.
abbrev pub classify_state : ContainerState → InstanceDifference
classify_state running = unchanged
classify_state created = stopped_but_compatible
classify_state exited = stopped_but_compatible
classify_state paused = runtime_state_drift RuntimeDrift.paused
classify_state restarting = runtime_state_drift RuntimeDrift.restarting
classify_state unknown = unsupported_observed_state

abbrev pub classify_fingerprint :
    (desired observed : Option Text) → ContainerState → InstanceDifference
classify_fingerprint none observed state =
    configuration_changed (text "configuration_fingerprint.missing_desired" ∷ [])
classify_fingerprint (some desired) none state =
    configuration_changed (text "configuration_fingerprint.missing_observed" ∷ [])
classify_fingerprint (some desired) (some observed) state =
    if not (observed =? desired)
    then configuration_changed (text "configuration_fingerprint" ∷ [])
    else classify_state state

unfoldable pub classify_container : ObservedContainer → (desired : Option Text) → InstanceDifference
classify_container container desired =
    if is_unknown_state container.state || is_unknown_image container.image
    then unsupported_observed_state
    else classify_fingerprint desired container.configuration_fingerprint container.state

-- `.iter().any(|conflict| &conflict.instance == instance)`
unfoldable pub any_conflict : ServiceInstanceId → List OwnershipConflict → Bool
any_conflict id [] = false
any_conflict id (c ∷ conflicts) = c.instance_id =? id || any_conflict id conflicts

unfoldable pub classify_instance :
    ServiceInstanceId → ObservedDeployment → DesiredInstanceFingerprints → InstanceDifference
unfolding any_conflict classify_container
classify_instance id observed fingerprints =
    if any_conflict id observed.ownership.duplicate_claims
    then ownership_ambiguous
    else elim (get observed.ownership.containers id) [
      | none ↦ missing
      | some container ↦ classify_container container (get fingerprints id)
    ]

-- `for replica in 0..replicas.get()`, from the replica `start` on, with `count` left.
unfoldable pub classify_replicas :
    DesiredDeployment
    → ObservedDeployment
    → DesiredInstanceFingerprints
    → ServiceName
    → (start count : ℕ) → IndexMap ServiceInstanceId InstanceDifference
    → IndexMap ServiceInstanceId InstanceDifference
unfolding classify_instance
classify_replicas desired observed fingerprints service start zero differences = differences
classify_replicas desired observed fingerprints service start (suc count) differences =
    let id = new_instance desired.identity.working_set service start in
    classify_replicas desired observed fingerprints service (suc start) count
      (insert id (classify_instance id observed fingerprints) differences)

unfoldable pub classify_services :
    DesiredDeployment
    → ObservedDeployment
    → DesiredInstanceFingerprints
    → IndexMap ServiceName ℕ
    → IndexMap ServiceInstanceId InstanceDifference
    → IndexMap ServiceInstanceId InstanceDifference
unfolding classify_replicas
classify_services desired observed fingerprints [] differences = differences
classify_services desired observed fingerprints ((service, replicas) ∷ services) differences =
    classify_services desired observed fingerprints services
      (classify_replicas desired observed fingerprints service 0 replicas differences)

unfoldable pub classify_deployment_differences :
    DesiredDeployment
    → ObservedDeployment
    → DesiredInstanceFingerprints
    → IndexMap ServiceInstanceId InstanceDifference
unfolding classify_services
classify_deployment_differences desired observed fingerprints =
    classify_services desired observed fingerprints desired.replicas []
