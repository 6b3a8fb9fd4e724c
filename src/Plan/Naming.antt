-- ===== src/Plan/Naming.antt =====
-- crates/susun-planner/src/naming.rs: the names that containers, networks and volumes get in the engine.
pub mod Parts
pub mod Shape
mod Examples
use susun.Prelude.{
  ℕ, ◌+◌, Bool, true, false, ◌&&◌, Option, none, some, List, [], ◌∷◌, ◌++◌, Text, text, leb, ltb,
  ◌==◌, is_ascii_alphanumeric, if◌then◌else◌, decimal, length,
}
use mathlib.Core.List.{reverse}
use susun.Engine.{ServiceInstanceId, NetworkIdentity, VolumeIdentity}
use susun.Engine.Operations.{new_name}
use susun.Runtime.Labels.{ordinal}

-- The kind of a resource is a text.
pub data NamingError : Type 0 where
  empty : (kind : Text) → NamingError
  too_long : (kind name : Text) (limit : ℕ) → NamingError

pub data NamingResult (A : Type 0) : Type 0 where
  ok : A → NamingResult A
  err : NamingError → NamingResult A

-- `Display` of `NamingError`.
abbrev pub display_naming : NamingError → Text
display_naming (empty kind) = text "generated " ++ (kind ++ text " name is empty")
display_naming (too_long kind name limit) =
    text "generated "
    ++ (kind ++ (text " name '" ++ (name ++ (text "' exceeds limit " ++ decimal limit))))

-- The trait: any functions from identities to names.
pub record NamingPolicy : Type 0 where
  pub container_name : ServiceInstanceId → NamingResult Text
  pub network_name : NetworkIdentity → NamingResult Text
  pub volume_name : VolumeIdentity → NamingResult Text

-- `char::to_ascii_lowercase`
abbrev pub to_ascii_lowercase : ℕ → ℕ
to_ascii_lowercase c = if leb 65 c && leb c 90 then c + 32 else c

-- `-`
abbrev pub dash : ℕ
dash = 45

-- The loop of `normalize_part`.
unfoldable pub normalize_chars : (previous_separator : Bool) → Text → Text
normalize_chars previous_separator [] = []
normalize_chars previous_separator (c ∷ s) =
    let letter = to_ascii_lowercase c ∷ normalize_chars false s in
    let skipped = normalize_chars previous_separator s in
    let separator = dash ∷ normalize_chars true s in
    if is_ascii_alphanumeric c then letter else if previous_separator then skipped else separator

-- `trim_start_matches('-')`
abbrev pub trim_dashes : Text → Text
trim_dashes [] = []
trim_dashes (c ∷ s) = if c == dash then trim_dashes s else c ∷ s

-- `normalize_part`
unfoldable pub normalize_part : Text → Text
unfolding normalize_chars
normalize_part part = reverse (trim_dashes (reverse (trim_dashes (normalize_chars false part))))

-- `parts.into_iter().map(normalize_part).filter(|part| !part.is_empty())`
unfoldable pub normalize_parts : List Text → List Text
unfolding normalize_part
normalize_parts [] = []
normalize_parts (p ∷ parts) = elim (normalize_part p) [
  | [] ↦ normalize_parts parts
  | c ∷ s ↦ (c ∷ s) ∷ normalize_parts parts
]

-- `join(separator)`
unfoldable pub join_with : (separator : Text) → List Text → Text
join_with separator [] = []
join_with separator (p ∷ []) = p
join_with separator (p ∷ q ∷ parts) = p ++ (separator ++ join_with separator (q ∷ parts))

abbrev pub exceeds : Option ℕ → (len : ℕ) → Option ℕ
exceeds none len = none
exceeds (some limit) len = if ltb limit len then some limit else none

-- The end of `runtime_name`, on the joined name, which is ASCII.
unfoldable pub checked_name : (kind : Text) → Option ℕ → (name : Text) → NamingResult Text
unfolding new_name
checked_name kind max_name_length [] = err (empty kind)
checked_name kind max_name_length (c ∷ name) = elim (exceeds max_name_length (length (c ∷ name))) [
  | some limit ↦ err (too_long kind (c ∷ name) limit)
  | none ↦ elim (new_name (c ∷ name)) [ none ↦ err (empty kind) | some n ↦ ok n ]
]

-- `runtime_name`
unfoldable pub runtime_name :
    (kind : Text) → Option ℕ → (parts : List Text) (separator : Text) → NamingResult Text
unfolding checked_name normalize_parts join_with
runtime_name kind max_name_length parts separator =
    checked_name kind max_name_length (join_with separator (normalize_parts parts))

-- `SusunNamingPolicy`, with its limit.
unfoldable pub susun_naming : Option ℕ → NamingPolicy
unfolding runtime_name decimal
susun_naming max_name_length = record {
  container_name = λ id.
      runtime_name (text "container") max_name_length
        (text "susun" ∷ id.project ∷ id.service ∷ decimal (ordinal id.replica) ∷ []) (text "-");
  network_name = λ id.
      runtime_name (text "network") max_name_length (text "susun" ∷ id.project ∷ id.network ∷ [])
        (text "-");
  volume_name = λ id.
      runtime_name (text "volume") max_name_length (text "susun" ∷ id.project ∷ id.volume ∷ [])
        (text "-");
}

-- `ComposeCompatibleNamingPolicy`, with its limit.
unfoldable pub compose_naming : Option ℕ → NamingPolicy
unfolding runtime_name decimal
compose_naming max_name_length = record {
  container_name = λ id.
      runtime_name (text "container") max_name_length
        (id.project ∷ id.service ∷ decimal (ordinal id.replica) ∷ []) (text "_");
  network_name =
      λ id. runtime_name (text "network") max_name_length (id.project ∷ id.network ∷ []) (text "_");
  volume_name =
      λ id. runtime_name (text "volume") max_name_length (id.project ∷ id.volume ∷ []) (text "_");
}
