-- ===== src/Selection.antt =====
-- crates/susun-normalize/src/selection.rs: the services that the active profiles select.
pub mod Correct
use susun.Prelude.{Bool, true, false, ◌||◌, List, [], ◌∷◌, Text, list_eq, nat_eq, if◌then◌else◌}
use susun.IndexMap.{IndexMap, contains, insert_set, from_iter_onto}
use susun.Model.{ServiceName, Service, Project}

pub record ProjectSelection : Type 0 where
  pub active_services : List ServiceName

-- `profiles.iter().any(|profile| active_profiles.contains(profile))`
abbrev pub any_active : (active profiles : List Text) → Bool
any_active active [] = false
any_active active (p ∷ profiles) = contains active p || any_active active profiles

abbrev pub is_active : (active : List Text) → Service → Bool
is_active active service = elim service.profiles [
  | [] ↦ true
  | p ∷ profiles ↦ any_active active (p ∷ profiles)
]

unfoldable pub active_names : (active : List Text) → IndexMap ServiceName Service → List ServiceName
active_names active [] = []
active_names active ((name, service) ∷ services) =
    if is_active active service
    then name ∷ active_names active services
    else active_names active services

unfoldable pub select_services : Project → (profiles : List Text) → ProjectSelection
unfolding active_names from_iter_onto insert_set contains
select_services project profiles = record {
  active_services = from_iter_onto [] (active_names (from_iter_onto [] profiles) project.services);
}
