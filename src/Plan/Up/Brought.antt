-- ===== src/Plan/Up/Brought.antt =====
-- crates/susun-planner/src/up: what a plan does for one service, in terms of the project, the snapshot and the
-- options alone.
use mathlib.Core.List.{Memᴰ}
use mathlib.Core.List.Memᴰ.{head, tail}
use susun.Prelude.{
  ◌≡◌, ◌≢◌, refl, true, false, some, none, List, [], ◌∷◌, ◌⊎◌, Text, list_eq, nat_eq, Bool, Option,
}
use susun.IndexMap.{contains, get, keys, values}
use susun.Engine.{ObservedImage}
use susun.Model.{
  ServiceName, Service, ServiceDependency, CanonicalVolume, VolumeKind, ImageRef, BuildDefinition,
  DependencyCondition, service_started,
}
use susun.Plan.{
  ActionId, CreateContainerAction, create_container, start_container, wait_for_dependency,
  pull_image,
}
use susun.Plan.Input.{
  PlanningInput, UpPlanOptions, Actions, BuildPolicy, ImageAcquisitionPolicy, never_pull,
}
use susun.Plan.Naming.{NamingPolicy, NamingResult}
use susun.Plan.Up.Mounts.{runtime_volumes, runtime_volume}
use susun.Plan.Up.Resources.{UpResourceActions, never_pulls}
use susun.Plan.Up.Services.{debug_condition, is_started_condition}
use susun.Plan.Up.Grown.{Does, DependsOn}
use susun.Plan.Up.Facts.{NetworkReady, VolumeReady, BuildReady, network_of, volume_of}
use susun.Plan.Up.Waits.{IsWaiting}
use susun.Plan.Up.Serving.{instance_of}

-- The container has the settings of the service.
pub record IsConfigured (service : Service) (c : CreateContainerAction) : Type 0 where
  pub image : c.image ≡ service.image
  pub command : c.command ≡ service.command
  pub entrypoint : c.entrypoint ≡ service.entrypoint
  pub environment : c.environment ≡ service.environment
  pub labels : c.labels ≡ service.labels
  pub ports : c.ports ≡ service.ports
  pub healthcheck : c.healthcheck ≡ service.healthcheck
  pub restart : c.restart ≡ service.restart

module _ (input : PlanningInput) (options : UpPlanOptions) (naming : NamingPolicy) where
  -- A volume of the service, as the container mounts it: a named one under its runtime name.
  pub data MountOf (v : CanonicalVolume) : CanonicalVolume → Type 0 where
    by_name :
        (source runtime_name : Text)
        → v.kind ≡ VolumeKind.volume
        → v.source ≡ some source
        → naming.volume_name (volume_of input naming source) ≡ NamingResult.ok runtime_name
        → MountOf v (record v { source = some runtime_name })
    as_is : ((source : Text) → v.kind ≡ VolumeKind.volume → v.source ≢ some source) → MountOf v v

  pub data MountsOf : (volumes mounts : List CanonicalVolume) → Type 0 where
    none_left : MountsOf [] []
    mount :
        {v w : CanonicalVolume} {vs ws : List CanonicalVolume}
        → MountOf v w
        → MountsOf vs ws
        → MountsOf (v ∷ vs) (w ∷ ws)

  pub record BringsUp (start_of : ServiceName → ActionId) (P : ServiceName → Type 0)
      (s : ServiceName) (service : Service) (actions : Actions) : Type 0 where
    pub create_id : ActionId
    pub container : CreateContainerAction
    pub creates : Does actions create_id (create_container container)
    pub of_service : container.identity ≡ instance_of input s
    pub named : naming.container_name (instance_of input s) ≡ NamingResult.ok container.name
    pub configured : IsConfigured service container
    pub mounts : MountsOf service.volumes container.volumes
    pub attached :
        (n : Text)
        → contains (keys service.networks) n ≡ true
        → contains (keys input.project.networks) n ≡ true
        → (runtime_name : Text) × (naming.network_name (network_of input naming n)
            ≡ NamingResult.ok runtime_name)
          × (contains (keys container.networks) runtime_name ≡ true)
    pub behind_networks :
        (n : Text)
        → contains (keys service.networks) n ≡ true
        → contains (keys input.project.networks) n ≡ true
        → (id : ActionId) × DependsOn actions create_id id × NetworkReady input naming actions n id
    pub behind_volumes :
        (v : CanonicalVolume) (source : Text)
        → Memᴰ v service.volumes
        → v.kind ≡ VolumeKind.volume
        → v.source ≡ some source
        → (id : ActionId) × DependsOn actions create_id id
          × VolumeReady input naming actions source id
    pub behind_image :
        (image : ImageRef)
        → service.image ≡ some image
        → options.image_policy ≢ never_pull
        → ((i : ObservedImage) × Memᴰ i (values input.snapshot.images)
            × (contains i.references image ≡ true))
          ⊎ ((id : ActionId) × DependsOn actions create_id id × Does actions id (pull_image image))
    pub behind_build :
        (build : BuildDefinition)
        → service.build ≡ some build
        → options.build_policy ≡ BuildPolicy.build_declared
        → (id : ActionId) × DependsOn actions create_id id × BuildReady input naming actions s id
    pub starts : Does actions (start_of s) (start_container (instance_of input s))
    pub behind_create : DependsOn actions (start_of s) create_id
    pub behind_starts :
        (d : ServiceName)
        → contains (keys service.depends_on) d ≡ true
        → P d
        → DependsOn actions (start_of s) (start_of d)
    pub waits :
        (d : ServiceName) (v : ServiceDependency)
        → get service.depends_on d ≡ some v
        → v.condition ≢ service_started
        → P d
        → IsWaiting actions (start_of s) (start_of d) (
            wait_for_dependency
              (instance_of input s)
              (instance_of input d)
              (debug_condition v.condition))

  pub is_waited : (c : DependencyCondition) → c ≢ service_started → is_started_condition c ≡ false
  is_waited service_started h = absurd (h refl)
  is_waited DependencyCondition.service_healthy h = refl
  is_waited DependencyCondition.service_completed_successfully h = refl

  pub is_pulled : (p : ImageAcquisitionPolicy) → p ≢ never_pull → never_pulls p ≡ false
  is_pulled never_pull h = absurd (h refl)
  is_pulled ImageAcquisitionPolicy.pull_if_missing h = refl
  is_pulled ImageAcquisitionPolicy.require_present h = refl

  -- The source of a named volume has a runtime name.
  abbrev IsNoted : UpResourceActions → CanonicalVolume → Type 0
  IsNoted resources v =
      (source : Text)
      → v.kind ≡ VolumeKind.volume
      → v.source ≡ some source
      → (runtime_name : Text) × (get resources.volume_names source ≡ some runtime_name)
        × (naming.volume_name (volume_of input naming source) ≡ NamingResult.ok runtime_name)

  runtime_volume-MountOf :
      (resources : UpResourceActions) (kind : VolumeKind) (source : Option Text) (target : Text)
      (read_only : Bool)
      → IsNoted resources
          (record { kind = kind; source = source; target = target; read_only = read_only })
      → MountOf
          (record { kind = kind; source = source; target = target; read_only = read_only })
          (runtime_volume resources
            (record { kind = kind; source = source; target = target; read_only = read_only }))
  runtime_volume-MountOf resources VolumeKind.volume (some source) target read_only planned =
      let (runtime_name, noted, ok_name) = planned source refl refl in
      rw noted (by_name source runtime_name refl refl ok_name)
  runtime_volume-MountOf resources VolumeKind.volume none target read_only planned =
      as_is (λ source k e. cc)
  runtime_volume-MountOf resources VolumeKind.bind source target read_only planned =
      as_is (λ source k e. cc)
  runtime_volume-MountOf resources VolumeKind.anonymous source target read_only planned =
      as_is (λ source k e. cc)

  pub runtime_volumes-MountsOf :
      (resources : UpResourceActions) (volumes : List CanonicalVolume)
      → ((v : CanonicalVolume) → Memᴰ v volumes → IsNoted resources v)
      → MountsOf volumes (runtime_volumes resources volumes)
  unfolding runtime_volumes
  runtime_volumes-MountsOf resources [] planned = none_left
  runtime_volumes-MountsOf resources (v ∷ volumes) planned =
      mount
        (runtime_volume-MountOf resources v.kind v.source v.target v.read_only
          (planned v (head refl)))
        (runtime_volumes-MountsOf resources volumes (λ w m. planned w (tail m)))
