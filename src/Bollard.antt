-- ===== src/Bollard.antt =====
-- crates/susun-engine-bollard/src/lib.rs: how a snapshot finds out from its labels what a resource is.
pub mod Labels
mod Examples
use susun.Prelude.{
  ℕ, ◌-◌, Option, none, some, List, [], ◌∷◌, Text, text, list_eq, nat_eq, ◌=?◌, if◌then◌else◌,
}
use susun.IndexMap.{IndexMap, insert, extend}
use susun.Engine.{ProjectIdentity, ServiceInstanceId, new_instance, NetworkIdentity, VolumeIdentity}
use susun.Engine.Operations.{new_name}
use susun.Ports.{parse_u32}

-- `labels_to_hashmap`, and `merged_labels`, the labels of a container that is created: a `HashMap` is a
-- list of pairs without a key twice.
unfoldable pub labels_to_hashmap : IndexMap Text Text → IndexMap Text Text
unfolding extend
labels_to_hashmap labels = extend [] labels

unfoldable pub merged_labels :
    (container_labels ownership : IndexMap Text Text) → IndexMap Text Text
unfolding extend labels_to_hashmap
merged_labels container_labels ownership =
    extend (extend [] container_labels) (labels_to_hashmap ownership)

-- `map_labels`; the argument is the `HashMap` of the client, in the order of its iteration.
unfoldable pub map_labels : List (Text × Text) → IndexMap Text Text → IndexMap Text Text
unfolding new_name insert
map_labels [] labels = labels
map_labels ((key, value) ∷ raw) labels = elim (new_name key) [
  | none ↦ map_labels raw labels
  | some k ↦ elim (new_name value) [
    | none ↦ map_labels raw labels
    | some v ↦ map_labels raw (insert k v labels)
  ]
]

unfoldable pub label_value : IndexMap Text Text → (key : Text) → Option Text
label_value [] key = none
label_value ((candidate, value) ∷ labels) key =
    if candidate =? key then some value else label_value labels key

-- `.and_then(|replica| replica.parse::<u32>().ok()).map(..).unwrap_or_default()`
abbrev pub observed_replica : Option Text → ℕ
observed_replica none = 0
observed_replica (some replica) = elim (parse_u32 replica) [ none ↦ 0 | some n ↦ n - 1 ]

-- The `service_identity` of an observed container.
unfoldable pub observed_service : ProjectIdentity → IndexMap Text Text → Option ServiceInstanceId
unfolding label_value parse_u32
observed_service project labels = elim (label_value labels (text "io.susun.service")) [
  | none ↦ none
  | some service ↦ some (
      new_instance project.working_set service
        (observed_replica (label_value labels (text "io.susun.replica"))))
]

-- The `network_identity` of an observed network.
unfoldable pub observed_network : ProjectIdentity → IndexMap Text Text → Option NetworkIdentity
unfolding label_value
observed_network project labels = elim (label_value labels (text "io.susun.network")) [
  | none ↦ none
  | some network ↦ some (record { project = project.working_set; network = network })
]

-- The `volume_identity` of an observed volume.
unfoldable pub observed_volume : ProjectIdentity → IndexMap Text Text → Option VolumeIdentity
unfolding label_value
observed_volume project labels = elim (label_value labels (text "io.susun.volume")) [
  | none ↦ none
  | some volume ↦ some (record { project = project.working_set; volume = volume })
]
