-- ===== src/Model.antt =====
-- crates/susun-model: the canonical model of a Compose project. The newtypes of name.rs wrap a
-- `String` and are texts here.
use susun.Prelude.{ℕ, Bool, true, false, Option, none, List, [], Text}
use susun.IndexMap.{IndexMap}

abbrev pub ProjectName : Type 0
ProjectName = Text

abbrev pub ServiceName : Type 0
ServiceName = Text

abbrev pub ImageRef : Type 0
ImageRef = Text

abbrev pub NetworkName : Type 0
NetworkName = Text

abbrev pub VolumeName : Type 0
VolumeName = Text

abbrev pub ConfigName : Type 0
ConfigName = Text

abbrev pub SecretName : Type 0
SecretName = Text

-- build.rs
pub record BuildDefinition : Type 0 where
  pub context : Option Text
  pub dockerfile : Option Text
  pub target : Option Text
  pub args : IndexMap Text (Option Text)
  pub platforms : List Text
  pub secrets : List Text
  pub ssh : List Text
  pub cache_from : List Text
  pub cache_to : List Text

-- dependency.rs
pub data DependencyCondition : Type 0 where
  service_started service_healthy service_completed_successfully : DependencyCondition

pub record ServiceDependency : Type 0 where
  pub condition : DependencyCondition
  pub restart : Bool
  pub required : Bool

abbrev pub default_dependency : ServiceDependency
default_dependency = record { condition = service_started; restart = false; required = true }

abbrev pub Dependencies : Type 0
Dependencies = IndexMap ServiceName ServiceDependency

-- service.rs, `Command`
pub data Command : Type 0 where
  shell : Text → Command
  exec : List Text → Command

-- health.rs
pub record Healthcheck : Type 0 where
  pub test : Option Command
  pub interval : Option Text
  pub timeout : Option Text
  pub start_period : Option Text
  pub retries : Option ℕ
  pub disable : Bool

-- port.rs: port numbers are `u16`.
pub data Protocol : Type 0 where
  tcp udp sctp : Protocol

pub data PublishedPort : Type 0 where
  single : ℕ → PublishedPort
  range : (start end : ℕ) → PublishedPort

pub record CanonicalPort : Type 0 where
  pub host_ip : Option Text
  pub published : Option PublishedPort
  pub target : ℕ
  pub protocol : Protocol

-- volume.rs
pub data VolumeKind : Type 0 where
  volume bind anonymous : VolumeKind

pub record CanonicalVolume : Type 0 where
  pub kind : VolumeKind
  pub source : Option Text
  pub target : Text
  pub read_only : Bool

-- resource.rs
pub record ResourceDefinition : Type 0 where
  pub external : Bool
  pub name : Option Text
  pub file : Option Text

pub record NetworkAttachment : Type 0 where
  pub aliases : List Text

pub record ResourceMount {ℓ} (N : Type ℓ) : Type ℓ where
  pub source : N
  pub target : Option Text
  pub uid : Option Text
  pub gid : Option Text
  pub mode : Option Text

-- service.rs
pub record Service : Type 0 where
  pub image : Option ImageRef
  pub build : Option BuildDefinition
  pub command : Option Command
  pub entrypoint : Option Command
  pub environment : IndexMap Text (Option Text)
  pub labels : IndexMap Text Text
  pub ports : List CanonicalPort
  pub volumes : List CanonicalVolume
  pub depends_on : Dependencies
  pub networks : IndexMap NetworkName NetworkAttachment
  pub configs : List (ResourceMount ConfigName)
  pub secrets : List (ResourceMount SecretName)
  pub healthcheck : Option Healthcheck
  pub restart : Option Text
  pub profiles : List Text

-- `Service::default()`
abbrev pub default_service : Service
default_service = record {
  image = none;
  build = none;
  command = none;
  entrypoint = none;
  environment = [];
  labels = [];
  ports = [];
  volumes = [];
  depends_on = [];
  networks = [];
  configs = [];
  secrets = [];
  healthcheck = none;
  restart = none;
  profiles = [];
}

-- project.rs
pub record Project : Type 0 where
  pub name : ProjectName
  pub services : IndexMap ServiceName Service
  pub networks : IndexMap NetworkName ResourceDefinition
  pub volumes : IndexMap VolumeName ResourceDefinition
  pub configs : IndexMap ConfigName ResourceDefinition
  pub secrets : IndexMap SecretName ResourceDefinition
