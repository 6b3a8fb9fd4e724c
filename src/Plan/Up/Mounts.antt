-- ===== src/Plan/Up/Mounts.antt =====
-- crates/susun-planner/src/up/services.rs: the networks and the mounts of a container, by their runtime names.
use susun.Prelude.{
  Bool, true, false, Option, none, some, List, [], ◌∷◌, ◌++◌, Text, text, list_eq, nat_eq,
  option_eq, if◌then◌else◌,
}
use susun.IndexMap.{IndexMap, get, insert}
use susun.Engine.{instance_eq}
use susun.Model.{
  Project, Service, CanonicalVolume, ResourceDefinition, ResourceMount, NetworkAttachment,
}
use susun.Plan.{MaterializedResourceMount}
use susun.Plan.Up.Needs.{is_named}
use susun.Plan.Up.Resources.{UpResourceActions}

unfoldable pub add_networks :
    IndexMap Text Text
    → IndexMap Text NetworkAttachment
    → IndexMap Text NetworkAttachment
    → IndexMap Text NetworkAttachment
add_networks names [] attached = attached
add_networks names ((name, attachment) ∷ networks) attached = elim (get names name) [
  | none ↦ add_networks names networks attached
  | some runtime_name ↦ add_networks names networks (insert runtime_name attachment attached)
]

-- `runtime_networks`
abbrev pub runtime_networks : Service → UpResourceActions → IndexMap Text NetworkAttachment
runtime_networks service resources = add_networks resources.network_names service.networks []

abbrev pub runtime_volume : UpResourceActions → CanonicalVolume → CanonicalVolume
runtime_volume resources volume =
    if is_named volume.kind
    then (elim volume.source [
      | none ↦ volume
      | some source ↦ elim (get resources.volume_names source) [
        | none ↦ volume
        | some runtime_name ↦ record volume { source = some runtime_name }
      ]
    ])
    else volume

-- `runtime_volumes`
unfoldable pub runtime_volumes : UpResourceActions → List CanonicalVolume → List CanonicalVolume
runtime_volumes resources [] = []
runtime_volumes resources (v ∷ volumes) =
    runtime_volume resources v ∷ runtime_volumes resources volumes

abbrev pub unwrap_or : Option Text → Text → Text
unwrap_or none default = default
unwrap_or (some value) default = value

-- `materialized_mount`
abbrev pub materialized_mount :
    ResourceMount Text
    → ResourceDefinition
    → (default_target : Text) → (secret : Bool) → Option MaterializedResourceMount
materialized_mount mount definition default_target secret = elim definition.file [
  | none ↦ none
  | some source ↦ some (record {
    source = source;
    target = unwrap_or mount.target default_target;
    uid = mount.uid;
    gid = mount.gid;
    mode = mount.mode;
    secret = secret;
  })
]

-- `filter_map` over the mounts, for configs and for secrets; `prefix` is that of the default target.
unfoldable pub runtime_mounts :
    IndexMap Text ResourceDefinition
    → (prefix : Text) → (secret : Bool) → List (ResourceMount Text)
    → List MaterializedResourceMount
runtime_mounts definitions prefix secret [] = []
runtime_mounts definitions prefix secret (m ∷ mounts) =
    let rest = runtime_mounts definitions prefix secret mounts in
    elim (get definitions m.source) [
      | none ↦ rest
      | some definition ↦ elim (materialized_mount m definition (prefix ++ m.source) secret) [
        | none ↦ rest
        | some mount ↦ mount ∷ rest
      ]
    ]

-- `runtime_configs` and `runtime_secrets`
abbrev pub runtime_configs : Project → Service → List MaterializedResourceMount
runtime_configs project service = runtime_mounts project.configs (text "/") false service.configs

abbrev pub runtime_secrets : Project → Service → List MaterializedResourceMount
runtime_secrets project service =
    runtime_mounts project.secrets (text "/run/secrets/") true service.secrets
