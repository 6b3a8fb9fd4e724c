-- ===== src/Runtime/Labels.antt =====
-- crates/susun-runtime/src/runtime.rs: the labels that the runtime puts on what it creates.
use susun.Prelude.{
  Option-cases, inl, inr, ℕ, ◌+◌, ◌%◌, ◌≡◌, Bool, not, ◌&&◌, Option, none, some, List, [], ◌∷◌,
  Text, text, arith, list_eq, nat_eq, ◌=?◌, all_chars, decimal, if◌then◌else◌,
}
use susun.IndexMap.{IndexMap, get, insert, get-insert, IsDistinct, keys, keys-insert-IsDistinct}
use susun.Engine.{ReplicaIndex}
use susun.Engine.Operations.{is_whitespace, new_name}
use susun.Plan.Execution.{ExecutionPlan}

-- `ReplicaIndex::ordinal`, a sum of `u32`.
abbrev pub ordinal : ReplicaIndex → ℕ
ordinal replica = (replica + 1) % 4294967296

pub data ResourceLabel : Type 0 where
  service network volume : Text → ResourceLabel

unfoldable pub insert_label : (key value : Text) → IndexMap Text Text → IndexMap Text Text
unfolding new_name insert
insert_label key value labels = elim (new_name key) [
  | none ↦ labels
  | some k ↦ elim (new_name value) [ none ↦ labels | some v ↦ insert k v labels ]
]

-- The loop over `pairs`.
unfoldable pub insert_labels : List (Text × Text) → IndexMap Text Text → IndexMap Text Text
unfolding insert_label
insert_labels [] labels = labels
insert_labels ((key, value) ∷ pairs) labels = insert_labels pairs (insert_label key value labels)

abbrev pub resource_label : ResourceLabel → Text × Text
resource_label (service name) = (text "io.susun.service", name)
resource_label (network name) = (text "io.susun.network", name)
resource_label (volume name) = (text "io.susun.volume", name)

-- `pairs`
abbrev pub project_labels : ExecutionPlan → List (Text × Text)
project_labels plan =
    (text "io.susun.project", plan.project.name)
    ∷ (text "io.susun.project-instance", plan.project.working_set)
    ∷ (text "io.susun.managed", text "true")
    ∷ (text "io.susun.model-version", text "1")
    ∷ []

unfoldable pub ownership_labels :
    ExecutionPlan → ResourceLabel → (replica : Option ℕ) → IndexMap Text Text
unfolding insert_labels decimal
ownership_labels plan resource replica =
    let labels =
      insert_labels (resource_label resource ∷ []) (insert_labels (project_labels plan) []) in
    elim replica [
      | none ↦ labels
      | some n ↦ insert_label (text "io.susun.replica") (decimal n) labels
    ]

-- A text that `LabelValue::new` takes.
abbrev pub is_label : Text → Bool
is_label value = not (all_chars is_whitespace value)

pub get-insert_label :
    (key value : Text) (labels : IndexMap Text Text) (k : Text)
    → get (insert_label key value labels) k
      ≡ (if (key =? k) && (is_label key && is_label value) then some value else get labels k)
unfolding insert_label new_name
get-insert_label key value labels k = ground (arith, get-insert labels key k value)

insert_label-IsDistinct :
    (key value : Text) (labels : IndexMap Text Text)
    → IsDistinct (keys labels)
    → IsDistinct (keys (insert_label key value labels))
unfolding insert_label
insert_label-IsDistinct key value labels d = elim (Option-cases (new_name key)) [
  | inl blank ↦ rw (blank, insert_label) d
  | inr (k, named) ↦ elim (Option-cases (new_name value)) [
    | inl blank ↦ rw (named, blank, insert_label) d
    | inr (v, valued) ↦ rw (named, valued, insert_label) (keys-insert-IsDistinct labels k v d)
  ]
]

insert_labels-IsDistinct :
    (pairs : List (Text × Text)) (labels : IndexMap Text Text)
    → IsDistinct (keys labels)
    → IsDistinct (keys (insert_labels pairs labels))
unfolding insert_labels
insert_labels-IsDistinct [] labels d = d
insert_labels-IsDistinct ((key, value) ∷ pairs) labels d =
    insert_labels-IsDistinct pairs (insert_label key value labels)
      (insert_label-IsDistinct key value labels d)

pub ownership_labels-IsDistinct :
    (plan : ExecutionPlan) (resource : ResourceLabel) (replica : Option ℕ)
    → IsDistinct (keys (ownership_labels plan resource replica))
unfolding ownership_labels keys
ownership_labels-IsDistinct plan resource replica = numbered replica (
    insert_labels-IsDistinct (resource_label resource ∷ []) (insert_labels (project_labels plan) [])
      (insert_labels-IsDistinct (project_labels plan) [] tt))
  where
    labels : IndexMap Text Text
    labels = insert_labels (resource_label resource ∷ []) (insert_labels (project_labels plan) [])

    numbered :
        (n : Option ℕ)
        → IsDistinct (keys labels)
        → IsDistinct (
            keys (elim n [
              | none ↦ labels
              | some m ↦ insert_label (text "io.susun.replica") (decimal m) labels
            ]))
    numbered none d = d
    numbered (some m) d = insert_label-IsDistinct (text "io.susun.replica") (decimal m) labels d
