-- ===== src/Bollard/Examples.antt =====
-- Labels of a container, a network and a volume, and the theorems about reading them at these.
use susun.Prelude.{
  ◌≡◌, refl, none, some, [], Text, text, list_eq, nat_eq, arith, ◌∷◌, false, list_beq_iff,
}
use susun.IndexMap.{
  IndexMap, contains, get, keys, insert, get-insert, get-none_iff, IsDistinct,
  keys-insert-IsDistinct,
}
use susun.Engine.{new_instance}
use susun.Plan.{down}
use susun.Plan.Execution.{ExecutionPlan, current_schema}
use susun.Runtime.Labels.{service, network, volume, ownership_labels}
use susun.Bollard.{
  labels_to_hashmap, merged_labels, map_labels, observed_service, observed_network, observed_volume,
}
use susun.Bollard.Labels.{
  KeepsLabels, observed_service-ownership_labels, observed_network-observed_volume,
}

abbrev plan : ExecutionPlan
plan = record {
  schema_version = current_schema;
  plan_id = text "plan";
  project = record { name = text "demo"; working_set = text "w1" };
  operation = down;
  created_at = none;
  actions = [];
  summary = record {
    total_actions = 0;
    safe_actions = 0;
    caution_actions = 0;
    destructive_actions = 0;
  };
  diagnostics = record { diagnostics = []; next_ordinal = 0 };
}

-- The labels of the user try to name another service.
abbrev user_labels : IndexMap Text Text
user_labels = (text "io.susun.service", text "db") ∷ (text "tier", text "front") ∷ []

abbrev sent : IndexMap Text Text
sent = merged_labels user_labels (ownership_labels plan (service (text "web")) (some 12))

-- The engine adds a label of the image.
abbrev of_container : IndexMap Text Text
of_container = insert (text "maintainer") (text "me") sent

abbrev of_network : IndexMap Text Text
of_network = labels_to_hashmap (ownership_labels plan (network (text "back")) none)

abbrev of_volume : IndexMap Text Text
of_volume = labels_to_hashmap (ownership_labels plan (volume (text "data")) none)

replica_label : get of_container (text "io.susun.replica") ≡ some (text "12")
unfolding merged_labels ownership_labels get insert
replica_label = refl

with_another-KeepsLabels :
    (labels : IndexMap Text Text) (key value : Text)
    → IsDistinct (keys labels)
    → contains (keys labels) key ≡ false
    → KeepsLabels (insert key value labels) labels
with_another-KeepsLabels labels key value d new = record {
  distinct = keys-insert-IsDistinct labels key value d;
  kept = λ k v h.
      ground
        (arith, get-insert labels key k value, get-none_iff labels key, list_beq_iff key k, h, new);
}

of_container-KeepsLabels : KeepsLabels of_container sent
unfolding merged_labels ownership_labels keys contains insert
of_container-KeepsLabels =
    with_another-KeepsLabels sent (text "maintainer") (text "me")
      (refl, (refl, (refl, (refl, (refl, (refl, (refl, tt))))))) refl

of_network-KeepsLabels : KeepsLabels of_network of_network
unfolding labels_to_hashmap ownership_labels keys contains insert
of_network-KeepsLabels = record {
  distinct = (refl, (refl, (refl, (refl, (refl, tt)))));
  kept = λ k v h. h;
}

of_volume-KeepsLabels : KeepsLabels of_volume of_volume
unfolding labels_to_hashmap ownership_labels keys contains insert
of_volume-KeepsLabels = record {
  distinct = (refl, (refl, (refl, (refl, (refl, tt)))));
  kept = λ k v h. h;
}

observed_service-ownership_labels_example :
    observed_service plan.project (map_labels of_container [])
    ≡ some (new_instance plan.project.working_set (text "web") 11)
observed_service-ownership_labels_example =
    observed_service-ownership_labels plan (text "web") 11 user_labels of_container refl
      (omega arith) of_container-KeepsLabels

observed_network-observed_volume_example :
    (observed_network plan.project (map_labels of_network [])
      ≡ some (record { project = plan.project.working_set; network = text "back" }))
    × (observed_volume plan.project (map_labels of_volume [])
        ≡ some (record { project = plan.project.working_set; volume = text "data" }))
observed_network-observed_volume_example =
    observed_network-observed_volume plan (text "back") (text "data") of_network of_volume refl refl
      of_network-KeepsLabels of_volume-KeepsLabels
