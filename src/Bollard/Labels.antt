-- ===== src/Bollard/Labels.antt =====
-- crates/susun-engine-bollard/src/lib.rs and crates/susun-runtime/src/runtime.rs: what the runtime writes into
-- the labels, the snapshot reads.
use susun.Prelude.{
  ℕ, ◌+◌, ◌-◌, ◌<◌, ◌≡◌, refl, ap, true, ◌&&◌, none, some, [], ◌∷◌, Text, text, arith, list_eq,
  nat_eq, list_beq_iff, decimal, starts_with_digit, decimal-starts_with_digit, if◌then◌else◌,
}
use susun.IndexMap.{
  IndexMap, contains, IsDistinct, get, insert, get-insert, keys, get-none_iff, extend, extend-found,
  keys-extend-IsDistinct,
}
use susun.Engine.{new_instance}
use susun.Engine.Operations.{new_name}
use susun.Plan.Execution.{ExecutionPlan}
use susun.Ports.Numbers.{parse_u32-decimal}
use susun.Runtime.Labels.{
  ordinal, service, network, volume, insert_labels, ownership_labels, is_label, get-insert_label,
  ownership_labels-IsDistinct,
}
use susun.Bollard.{
  labels_to_hashmap, merged_labels, map_labels, label_value, observed_replica, observed_service,
  observed_network, observed_volume,
}

label_value-get :
    (labels : IndexMap Text Text) (key : Text) → label_value labels key ≡ get labels key
unfolding label_value get
label_value-get [] key = refl
label_value-get ((candidate, value) ∷ labels) key = ground (arith, label_value-get labels key)

get-map_labels :
    (raw labels : IndexMap Text Text) (k : Text)
    → IsDistinct (keys raw)
    → get (map_labels raw labels) k ≡ elim (get raw k) [
      | none ↦ get labels k
      | some v ↦ if is_label k && is_label v then some v else get labels k
    ]
unfolding map_labels new_name get keys contains
get-map_labels [] labels k d = refl
get-map_labels ((key, value) ∷ raw) labels k d = ground (
  arith,
  get-map_labels raw labels k d.1,
  get-map_labels raw (insert key value labels) k d.1,
  get-insert labels key k value,
  list_beq_iff key k,
  get-none_iff raw key,
  d.0,
)

-- What Docker gives back for the labels that a resource was created with: these, in some order, and others,
-- as those of the image.
pub record KeepsLabels (raw labels : IndexMap Text Text) : Type 0 where
  pub distinct : IsDistinct (keys raw)
  pub kept : (k v : Text) → get labels k ≡ some v → get raw k ≡ some v

labels_to_hashmap-found :
    (labels : IndexMap Text Text) (k v : Text)
    → IsDistinct (keys labels)
    → get labels k ≡ some v
    → get (labels_to_hashmap labels) k ≡ some v
unfolding labels_to_hashmap
labels_to_hashmap-found labels k v d h = extend-found [] labels k v d h

-- The labels of the user do not hide those of the runtime.
merged_labels-found :
    (container_labels labels : IndexMap Text Text) (k v : Text)
    → IsDistinct (keys labels)
    → get labels k ≡ some v
    → get (merged_labels container_labels labels) k ≡ some v
unfolding merged_labels labels_to_hashmap keys
merged_labels-found container_labels labels k v d h =
    extend-found (extend [] container_labels) (extend [] labels) k v
      (keys-extend-IsDistinct [] labels tt) (extend-found [] labels k v d h)

label_read :
    (raw labels : IndexMap Text Text) (k v : Text)
    → KeepsLabels raw labels
    → get labels k ≡ some v
    → is_label k ≡ true
    → is_label v ≡ true
    → label_value (map_labels raw []) k ≡ some v
unfolding get
label_read raw labels k v given found key value = ground (
  arith,
  label_value-get (map_labels raw []) k,
  get-map_labels raw [] k given.distinct,
  given.kept k v,
  found,
  key,
  value,
)

decimal-is_label : (n : ℕ) → is_label (decimal n) ≡ true
decimal-is_label n = digits_is_label (decimal n) (decimal-starts_with_digit n)
  where
    digits_is_label : (s : Text) → starts_with_digit s ≡ true → is_label s ≡ true
    digits_is_label [] h = cc h
    digits_is_label (c ∷ s) h = ground (arith, h)

replica_read :
    (replica : ℕ)
    → replica + 1 < 4294967296
    → observed_replica (some (decimal (ordinal replica))) ≡ replica
replica_read replica fits =
    let read : ordinal replica - 1 ≡ replica = omega arith in
    rw (parse_u32-decimal (ordinal replica) (omega arith), observed_replica) read

module _ (plan : ExecutionPlan) where
  written_service :
      (name : Text) (n : ℕ)
      → is_label name ≡ true
      → get (ownership_labels plan (service name) (some n)) (text "io.susun.service") ≡ some name
  unfolding ownership_labels insert_labels
  written_service name n good = rw (get-insert_label, get-insert_label, good) refl

  written_replica :
      (name : Text) (n : ℕ)
      → get (ownership_labels plan (service name) (some n)) (text "io.susun.replica")
        ≡ some (decimal n)
  unfolding ownership_labels
  written_replica name n = rw (get-insert_label, decimal-is_label n) refl

  written_network :
      (name : Text)
      → is_label name ≡ true
      → get (ownership_labels plan (network name) none) (text "io.susun.network") ≡ some name
  unfolding ownership_labels insert_labels
  written_network name good = rw (get-insert_label, good) refl

  written_volume :
      (name : Text)
      → is_label name ≡ true
      → get (ownership_labels plan (volume name) none) (text "io.susun.volume") ≡ some name
  unfolding ownership_labels insert_labels
  written_volume name good = rw (get-insert_label, good) refl

  -- If the name of a service is not blank and the ordinal of the replica is a `u32`, then a snapshot finds
  -- in the labels that the engine returns for a container, in whatever order and with whatever others,
  -- as long as they hold those that it was created with, the instance of the service that the
  -- container was created for, whatever labels the user gave it.
  pub observed_service-ownership_labels :
      (name : Text) (replica : ℕ) (container_labels raw : IndexMap Text Text)
      → is_label name ≡ true
      → replica + 1 < 4294967296
      → KeepsLabels raw (
          merged_labels container_labels
            (ownership_labels plan (service name) (some (ordinal replica))))
      → observed_service plan.project (map_labels raw [])
        ≡ some (new_instance plan.project.working_set name replica)
  unfolding observed_service
  observed_service-ownership_labels name replica container_labels raw good fits given =
      let number = ordinal replica in
      let labels = ownership_labels plan (service name) (some number) in
      let merged = merged_labels container_labels labels in
      let distinct = ownership_labels-IsDistinct plan (service name) (some number) in
      rw
        (
          label_read raw merged (text "io.susun.service") name given
              (merged_labels-found container_labels labels (text "io.susun.service") name distinct
                (written_service name number good))
              refl good,
          label_read raw merged (text "io.susun.replica") (decimal number) given
              (merged_labels-found container_labels labels (text "io.susun.replica")
                (decimal number) distinct (written_replica name number))
              refl (decimal-is_label number),
          observed_service,
        )
        (ap (λ r. some (new_instance plan.project.working_set name r)) (replica_read replica fits))

  -- If the names of a network and of a volume are not blank, then a snapshot finds in the labels that the
  -- runtime put on them, in whatever order and with whatever others the engine returns them, the
  -- identities that they were created for.
  pub observed_network-observed_volume :
      (network_name volume_name : Text) (of_network of_volume : IndexMap Text Text)
      → is_label network_name ≡ true
      → is_label volume_name ≡ true
      → KeepsLabels of_network
          (labels_to_hashmap (ownership_labels plan (network network_name) none))
      → KeepsLabels of_volume (labels_to_hashmap (ownership_labels plan (volume volume_name) none))
      → (observed_network plan.project (map_labels of_network [])
          ≡ some (record { project = plan.project.working_set; network = network_name }))
        × (observed_volume plan.project (map_labels of_volume [])
            ≡ some (record { project = plan.project.working_set; volume = volume_name }))
  unfolding observed_network observed_volume
  observed_network-observed_volume network_name volume_name of_network of_volume good_network
        good_volume network_given volume_given =
      (
        rw
            (
              label_read of_network
                  (labels_to_hashmap (ownership_labels plan (network network_name) none))
                  (text "io.susun.network") network_name network_given
                  (labels_to_hashmap-found (ownership_labels plan (network network_name) none)
                    (text "io.susun.network") network_name
                    (ownership_labels-IsDistinct plan (network network_name) none)
                    (written_network network_name good_network))
                  refl good_network,
              observed_network,
            )
            refl,
        rw
            (
              label_read of_volume
                  (labels_to_hashmap (ownership_labels plan (volume volume_name) none))
                  (text "io.susun.volume") volume_name volume_given
                  (labels_to_hashmap-found (ownership_labels plan (volume volume_name) none)
                    (text "io.susun.volume") volume_name
                    (ownership_labels-IsDistinct plan (volume volume_name) none)
                    (written_volume volume_name good_volume))
                  refl good_volume,
              observed_volume,
            )
            refl,
      )
