-- ===== src/Engine/Capabilities.antt =====
-- crates/susun-engine/src/capability.rs: what an engine says that it supports.
use susun.Prelude.{
  ℕ, Bool, true, false, ◌≡◌, ◌↔◌, Option, none, some, List, [], ◌∷◌, Text, arith, Eq,
}
use susun.IndexMap.{contains}

-- `EngineApiVersion` wraps a `String`.
abbrev pub EngineApiVersion : Type 0
EngineApiVersion = Text

pub data SupportLevel : Type 0 where
  supported supported_subset experimental unsupported unknown : SupportLevel

-- `SupportLevel::is_supported`
abbrev pub is_supported : SupportLevel → Bool
is_supported supported = true
is_supported supported_subset = true
is_supported _ = false

pub data MountType : Type 0 where
  volume bind anonymous : MountType

-- The derived `PartialEq`.
abbrev pub mount_beq : MountType → MountType → Bool
mount_beq volume volume = true
mount_beq bind bind = true
mount_beq anonymous anonymous = true
mount_beq _ _ = false

pub mount_beq_iff : (a b : MountType) → (mount_beq a b ≡ true) ↔ (a ≡ b)
mount_beq_iff a b = ground arith

instance abbrev pub mount_eq : Eq MountType
mount_eq = record { beq = mount_beq; beq_iff = mount_beq_iff }

pub record EngineCapabilities : Type 0 where
  pub api_version : Option EngineApiVersion
  pub supports_health : SupportLevel
  pub supports_named_volumes : SupportLevel
  pub supports_network_aliases : SupportLevel
  pub supports_mount_types : List MountType
  pub supports_log_follow : SupportLevel
  pub supports_build : SupportLevel
  pub supports_container_inventory : SupportLevel
  pub supports_image_inventory : SupportLevel
  pub supports_engine_information : SupportLevel
  pub supports_image_management : SupportLevel
  pub supports_registry_pull : SupportLevel
  pub supports_registry_push : SupportLevel
  pub supports_registry_auth : SupportLevel
  pub supports_build_cache : SupportLevel
  pub supports_cleanup_preview : SupportLevel
  pub max_container_name_length : Option ℕ

-- `EngineCapabilities::conservative`
abbrev pub conservative : EngineCapabilities
conservative = record {
  api_version = none;
  supports_health = unknown;
  supports_named_volumes = unknown;
  supports_network_aliases = unknown;
  supports_mount_types = [];
  supports_log_follow = unknown;
  supports_build = unsupported;
  supports_container_inventory = unknown;
  supports_image_inventory = unknown;
  supports_engine_information = unknown;
  supports_image_management = unsupported;
  supports_registry_pull = unknown;
  supports_registry_push = unsupported;
  supports_registry_auth = unsupported;
  supports_build_cache = unsupported;
  supports_cleanup_preview = unsupported;
  max_container_name_length = none;
}

-- `EngineCapabilities::permissive_local`
abbrev pub permissive_local : EngineCapabilities
permissive_local = record {
  api_version = none;
  supports_health = supported;
  supports_named_volumes = supported;
  supports_network_aliases = supported;
  supports_mount_types = volume ∷ bind ∷ anonymous ∷ [];
  supports_log_follow = supported;
  supports_build = unsupported;
  supports_container_inventory = unknown;
  supports_image_inventory = unknown;
  supports_engine_information = unknown;
  supports_image_management = unsupported;
  supports_registry_pull = supported;
  supports_registry_push = unsupported;
  supports_registry_auth = unsupported;
  supports_build_cache = unsupported;
  supports_cleanup_preview = unsupported;
  max_container_name_length = some 255;
}

-- `EngineCapabilities::supports_mount`
abbrev pub supports_mount : EngineCapabilities → MountType → Bool
supports_mount capabilities mount_type = contains capabilities.supports_mount_types mount_type
