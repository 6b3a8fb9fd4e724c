-- ===== src/Plan/Up/Needs.antt =====
-- crates/susun-planner/src/up/resources.rs: what the services need, and what the engine has of it.
use susun.Prelude.{
  ◌&&◌, ◌||◌, Bool, true, false, not, none, some, List, [], ◌∷◌, ◌++◌, Text, list_eq, nat_eq,
  option_eq, ◌=?◌, if◌then◌else◌,
}
use susun.IndexMap.{contains, from_iter_onto, get, keys}
use susun.Engine.{ProjectInstanceId, ObservedNetwork, ObservedVolume, ObservedImage}
use susun.Model.{ServiceName, VolumeName, ImageRef, CanonicalVolume, VolumeKind}
use susun.Plan.Input.{PlanningInput}

-- `network_exists_owned` and `network_name_conflicts`
unfoldable pub network_exists_owned :
    ProjectInstanceId → List ObservedNetwork → (name : Text) → Bool
network_exists_owned project [] name = false
network_exists_owned project (n ∷ networks) name =
    n.name =? name && (n.project_identity =? some project)
    || network_exists_owned project networks name

unfoldable pub network_name_conflicts :
    ProjectInstanceId → List ObservedNetwork → (name : Text) → Bool
network_name_conflicts project [] name = false
network_name_conflicts project (n ∷ networks) name =
    n.name =? name && not (n.project_identity =? some project)
    || network_name_conflicts project networks name

-- `volume_exists_owned` and `volume_name_conflicts`
unfoldable pub volume_exists_owned : ProjectInstanceId → List ObservedVolume → (name : Text) → Bool
volume_exists_owned project [] name = false
volume_exists_owned project (v ∷ volumes) name =
    v.name =? name && (v.project_identity =? some project)
    || volume_exists_owned project volumes name

unfoldable pub volume_name_conflicts :
    ProjectInstanceId → List ObservedVolume → (name : Text) → Bool
volume_name_conflicts project [] name = false
volume_name_conflicts project (v ∷ volumes) name =
    v.name =? name && not (v.project_identity =? some project)
    || volume_name_conflicts project volumes name

-- `volume.kind != VolumeKind::Volume`
abbrev pub is_named : VolumeKind → Bool
is_named VolumeKind.volume = true
is_named _ = false

-- The sources of the named volumes of a service.
unfoldable pub volume_sources : List CanonicalVolume → List Text
volume_sources [] = []
volume_sources (v ∷ volumes) =
    if is_named v.kind
    then (elim v.source [
      | none ↦ volume_sources volumes
      | some source ↦ source ∷ volume_sources volumes
    ])
    else volume_sources volumes

unfoldable pub service_volumes : PlanningInput → List ServiceName → List Text
service_volumes input [] = []
service_volumes input (s ∷ services) = elim (get input.project.services s) [
  | none ↦ service_volumes input services
  | some service ↦ volume_sources service.volumes ++ service_volumes input services
]

unfoldable pub required_named_volumes : PlanningInput → List VolumeName
required_named_volumes input =
    from_iter_onto []
      (keys input.project.volumes ++ service_volumes input input.selection.active_services)

unfoldable pub service_images : PlanningInput → List ServiceName → List ImageRef
service_images input [] = []
service_images input (s ∷ services) = elim (get input.project.services s) [
  | none ↦ service_images input services
  | some service ↦ elim service.image [
    | none ↦ service_images input services
    | some image ↦ image ∷ service_images input services
  ]
]

unfoldable pub required_images : PlanningInput → List ImageRef
required_images input = from_iter_onto [] (service_images input input.selection.active_services)

unfoldable pub image_exists : List ObservedImage → ImageRef → Bool
image_exists [] image = false
image_exists (i ∷ images) image = contains i.references image || image_exists images image
