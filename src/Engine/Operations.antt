-- ===== src/Engine/Operations.antt =====
-- crates/susun-engine/src/operation.rs and src/engine.rs: the requests that the runtime sends, and the
-- calls of the trait `ContainerEngine` that it uses. The names are texts that are not blank (src/resource.rs).
use susun.Prelude.{
  ℕ, Bool, ◌&&◌, ◌||◌, Option, none, some, List, Text, ◌==◌, leb, all_chars, if◌then◌else◌,
}
use susun.IndexMap.{IndexMap}
use susun.Model.{ImageRef, Command, CanonicalPort, CanonicalVolume, NetworkAttachment, Healthcheck}
use susun.Engine.{ProjectIdentity, ServiceInstanceId, EngineSnapshot}
use susun.Engine.Endpoint.{EngineResult, ok, err}
use susun.Engine.Errors.{EngineError}
use susun.Plan.{MaterializedResourceMount}

-- `char::is_whitespace`: the characters with the property White_Space of Unicode.
abbrev pub is_whitespace : ℕ → Bool
is_whitespace c =
    leb 9 c && leb c 13
    || c == 32
    || c == 133
    || c == 160
    || c == 5760
    || leb 8192 c && leb c 8202
    || c == 8232
    || c == 8233
    || c == 8239
    || c == 8287
    || c == 12288

-- `new` of the identifiers in src/resource.rs: `none` stands for `ResourceNameError::Empty`.
unfoldable pub new_name : Text → Option Text
new_name value = if all_chars is_whitespace value then none else some value

pub data PullPolicy : Type 0 where
  missing always : PullPolicy

pub record PullImageRequest : Type 0 where
  pub image : ImageRef
  pub policy : PullPolicy

-- The references that an engine returns.
pub record ContainerRef : Type 0 where
  pub id : Text

pub record NetworkRef : Type 0 where
  pub id : Text

pub record VolumeRef : Type 0 where
  pub id : Text

pub record EngineImageRef : Type 0 where
  pub reference : Text

pub record CreateNetworkRequest : Type 0 where
  pub project : ProjectIdentity
  pub name : Text
  pub labels : IndexMap Text Text

pub record CreateVolumeRequest : Type 0 where
  pub project : ProjectIdentity
  pub name : Text
  pub labels : IndexMap Text Text

pub record CreateContainerRequest : Type 0 where
  pub project : ProjectIdentity
  pub service : ServiceInstanceId
  pub name : Text
  pub image : Option ImageRef
  pub command : Option Command
  pub entrypoint : Option Command
  pub environment : IndexMap Text (Option Text)
  pub container_labels : IndexMap Text Text
  pub ports : List CanonicalPort
  pub volumes : List CanonicalVolume
  pub configs : List MaterializedResourceMount
  pub secrets : List MaterializedResourceMount
  pub networks : IndexMap Text NetworkAttachment
  pub healthcheck : Option Healthcheck
  pub restart : Option Text
  pub labels : IndexMap Text Text

-- Durations are milliseconds.
pub record StopContainerRequest : Type 0 where
  pub container : ContainerRef
  pub timeout : ℕ

pub record RemoveContainerOptions : Type 0 where
  pub remove_anonymous_volumes : Bool
  pub force : Bool

-- A call changes the world `W` outside of the program, and returns a result.
abbrev pub Call : Type 0 → Type 0 → Type 0
Call W A = W → EngineResult A EngineError × W

-- The calls of `ContainerEngine` that the runtime uses, and the clock.
pub record Engine (W : Type 0) : Type 0 where
  pub snapshot : ProjectIdentity → Call W EngineSnapshot
  pub pull_image : PullImageRequest → Call W EngineImageRef
  pub create_network : CreateNetworkRequest → Call W NetworkRef
  pub create_volume : CreateVolumeRequest → Call W VolumeRef
  pub create_container : CreateContainerRequest → Call W ContainerRef
  pub start_container : ContainerRef → Call W Unit
  pub stop_container : StopContainerRequest → Call W Unit
  pub remove_container : ContainerRef → RemoveContainerOptions → Call W Unit
  pub remove_network : NetworkRef → Call W Unit
  pub remove_volume : VolumeRef → Call W Unit
  pub now : W → ℕ
  pub sleep : ℕ → W → W

-- `call.await?`, then the rest.
abbrev pub and_then :
    {W A B : Type 0}
    → EngineResult A EngineError × W
    → (A → Call W B)
    → EngineResult B EngineError × W
and_then (ok a, w) rest = rest a w
and_then (err e, w) rest = (err e, w)
