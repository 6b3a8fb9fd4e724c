-- ===== src/Engine.antt =====
-- crates/susun-engine: identities of planned resources (src/identity.rs) and the neutral snapshot of
-- an engine (src/snapshot.rs). The newtypes over `String` are texts here.
pub mod Endpoint
pub mod Hosts
pub mod Errors
pub mod Operations
pub mod Capabilities
mod Examples
use susun.Prelude.{
  ℕ, ◌≡◌, ◌↔◌, Bool, true, Option, List, Text, arith, Eq, ◌=?◌, ◌&&◌, list_eq, nat_eq, list_beq_iff,
  ==_iff,
}
use susun.IndexMap.{IndexMap}
use susun.Model.{ProjectName, ServiceName, NetworkName, VolumeName, ImageRef}

abbrev pub ProjectInstanceId : Type 0
ProjectInstanceId = Text

-- `ReplicaIndex` wraps a `u32`.
abbrev pub ReplicaIndex : Type 0
ReplicaIndex = ℕ

pub record ProjectIdentity : Type 0 where
  pub name : ProjectName
  pub working_set : ProjectInstanceId

pub record ServiceInstanceId : Type 0 where
  pub project : ProjectInstanceId
  pub service : ServiceName
  pub replica : ReplicaIndex

-- `ServiceInstanceId::new`
abbrev pub new_instance : ProjectInstanceId → ServiceName → ReplicaIndex → ServiceInstanceId
new_instance project service replica = record {
  project = project;
  service = service;
  replica = replica;
}

pub record NetworkIdentity : Type 0 where
  pub project : ProjectInstanceId
  pub network : NetworkName

pub record VolumeIdentity : Type 0 where
  pub project : ProjectInstanceId
  pub volume : VolumeName

-- The derived `PartialEq` compares field by field.
abbrev instance_beq : ServiceInstanceId → ServiceInstanceId → Bool
instance_beq a b =
    (a.project =? b.project) && ((a.service =? b.service) && (a.replica =? b.replica))

pub instance_beq_iff : (a b : ServiceInstanceId) → (instance_beq a b ≡ true) ↔ (a ≡ b)
instance_beq_iff a b = ground (
  arith,
  list_beq_iff a.project b.project,
  list_beq_iff a.service b.service,
  ==_iff a.replica b.replica,
)

instance abbrev pub instance_eq : Eq ServiceInstanceId
instance_eq = record { beq = instance_beq; beq_iff = instance_beq_iff }

abbrev network_beq : NetworkIdentity → NetworkIdentity → Bool
network_beq a b = (a.project =? b.project) && (a.network =? b.network)

pub network_beq_iff : (a b : NetworkIdentity) → (network_beq a b ≡ true) ↔ (a ≡ b)
network_beq_iff a b =
    ground (arith, list_beq_iff a.project b.project, list_beq_iff a.network b.network)

instance abbrev pub network_eq : Eq NetworkIdentity
network_eq = record { beq = network_beq; beq_iff = network_beq_iff }

abbrev volume_beq : VolumeIdentity → VolumeIdentity → Bool
volume_beq a b = (a.project =? b.project) && (a.volume =? b.volume)

pub volume_beq_iff : (a b : VolumeIdentity) → (volume_beq a b ≡ true) ↔ (a ≡ b)
volume_beq_iff a b =
    ground (arith, list_beq_iff a.project b.project, list_beq_iff a.volume b.volume)

instance abbrev pub volume_eq : Eq VolumeIdentity
volume_eq = record { beq = volume_beq; beq_iff = volume_beq_iff }

-- src/snapshot.rs
pub data ObservedImageRef : Type 0 where
  id : Text → ObservedImageRef
  reference : ImageRef → ObservedImageRef
  unknown : ObservedImageRef

pub data ContainerState : Type 0 where
  created running exited paused restarting unknown : ContainerState

pub data HealthState : Type 0 where
  starting healthy unhealthy unknown : HealthState

pub data SnapshotField : Type 0 where
  name labels state health image ownership configuration_fingerprint : SnapshotField

pub data SnapshotCompleteness : Type 0 where
  complete : SnapshotCompleteness
  partial : (unavailable_fields : List SnapshotField) → SnapshotCompleteness
  unknown : SnapshotCompleteness

pub record ObservedContainer : Type 0 where
  pub id : Text
  pub name : Text
  pub state : ContainerState
  pub health : Option HealthState
  pub image : ObservedImageRef
  pub labels : IndexMap Text Text
  pub project_identity : Option ProjectInstanceId
  pub service_identity : Option ServiceInstanceId
  pub configuration_fingerprint : Option Text
  pub completeness : SnapshotCompleteness

pub record ObservedNetwork : Type 0 where
  pub id : Text
  pub name : Text
  pub labels : IndexMap Text Text
  pub project_identity : Option ProjectInstanceId
  pub network_identity : Option NetworkIdentity
  pub completeness : SnapshotCompleteness

pub record ObservedVolume : Type 0 where
  pub id : Text
  pub name : Text
  pub labels : IndexMap Text Text
  pub project_identity : Option ProjectInstanceId
  pub volume_identity : Option VolumeIdentity
  pub completeness : SnapshotCompleteness

pub record ObservedImage : Type 0 where
  pub id : Text
  pub references : List ImageRef
  pub labels : IndexMap Text Text
  pub completeness : SnapshotCompleteness

-- The time of the observation is a number of seconds; nothing modelled reads it.
pub record EngineSnapshot : Type 0 where
  pub observed_at : ℕ
  pub containers : IndexMap Text ObservedContainer
  pub networks : IndexMap Text ObservedNetwork
  pub volumes : IndexMap Text ObservedVolume
  pub images : IndexMap Text ObservedImage
