-- ===== src/Convergence/Ownership.antt =====
-- crates/susun-convergence/src/ownership.rs: which observed resources the project owns.
pub mod Claims
pub mod Owners
use susun.Prelude.{Option, none, some, List, [], ◌∷◌, ◌++◌, Text, list_eq, nat_eq, if◌then◌else◌}
use susun.IndexMap.{IndexMap, contains, get, insert, shift_remove, values}
use susun.Model.{ServiceName}
use susun.Engine.{
  ServiceInstanceId, NetworkIdentity, VolumeIdentity, instance_eq, network_eq, volume_eq,
  ObservedContainer, ObservedNetwork, ObservedVolume, EngineSnapshot,
}

pub record OwnershipConflict : Type 0 where
  pub instance_id : ServiceInstanceId
  pub containers : List ObservedContainer

pub record OwnershipIndex : Type 0 where
  pub containers : IndexMap ServiceInstanceId ObservedContainer
  pub duplicate_claims : List OwnershipConflict
  pub orphan_containers : List ObservedContainer
  pub project_networks : IndexMap NetworkIdentity ObservedNetwork
  pub project_volumes : IndexMap VolumeIdentity ObservedVolume
  pub foreign_name_conflicts : List Text

abbrev pub empty_index : OwnershipIndex
empty_index = record {
  containers = [];
  duplicate_claims = [];
  orphan_containers = [];
  project_networks = [];
  project_volumes = [];
  foreign_name_conflicts = [];
}

abbrev pub Duplicates : Type 0
Duplicates = IndexMap ServiceInstanceId (List ObservedContainer)

-- `duplicates.entry(instance).or_default().extend([existing, container])`
abbrev pub claims_of : Duplicates → ServiceInstanceId → List ObservedContainer
claims_of duplicates id = elim (get duplicates id) [ none ↦ [] | some claims ↦ claims ]

-- The body of the loop over the containers, for one that claims the instance `id`.
unfoldable pub index_claim :
    List ServiceName
    → ServiceInstanceId
    → ObservedContainer
    → OwnershipIndex × Duplicates
    → OwnershipIndex × Duplicates
index_claim services id container (ix, duplicates) =
    if contains services id.service
    then elim (get ix.containers id) [
      | some existing ↦
          (ix, insert id (claims_of duplicates id ++ existing ∷ container ∷ []) duplicates)
      | none ↦ (record ix { containers = insert id container ix.containers }, duplicates)
    ]
    else (record ix { orphan_containers = ix.orphan_containers ++ container ∷ [] }, duplicates)

unfoldable pub index_container :
    List ServiceName
    → List Text
    → ObservedContainer
    → OwnershipIndex × Duplicates
    → OwnershipIndex × Duplicates
unfolding index_claim
index_container services names container (ix, duplicates) = elim container.service_identity [
  | none ↦
      if contains names container.name
      then (
        record ix { foreign_name_conflicts = ix.foreign_name_conflicts ++ container.name ∷ [] },
        duplicates,
      )
      else (ix, duplicates)
  | some id ↦ index_claim services id container (ix, duplicates)
]

unfoldable pub index_containers :
    List ServiceName
    → List Text
    → List ObservedContainer
    → OwnershipIndex × Duplicates
    → OwnershipIndex × Duplicates
unfolding index_container
index_containers services names [] s = s
index_containers services names (c ∷ containers) s =
    index_containers services names containers (index_container services names c s)

-- `for (instance, containers) in duplicates`
unfoldable pub drop_duplicates : Duplicates → OwnershipIndex → OwnershipIndex
drop_duplicates [] ix = ix
drop_duplicates ((id, claims) ∷ duplicates) ix = drop_duplicates duplicates (record ix {
  containers = shift_remove id ix.containers;
  duplicate_claims = ix.duplicate_claims ++ record { instance_id = id; containers = claims } ∷ [];
})

unfoldable pub index_networks : List ObservedNetwork → OwnershipIndex → OwnershipIndex
index_networks [] ix = ix
index_networks (n ∷ networks) ix = elim n.network_identity [
  | none ↦ index_networks networks ix
  | some id ↦
      index_networks networks (record ix { project_networks = insert id n ix.project_networks })
]

unfoldable pub index_volumes : List ObservedVolume → OwnershipIndex → OwnershipIndex
index_volumes [] ix = ix
index_volumes (v ∷ volumes) ix = elim v.volume_identity [
  | none ↦ index_volumes volumes ix
  | some id ↦ index_volumes volumes (record ix { project_volumes = insert id v ix.project_volumes })
]

-- `OwnershipIndex::from_snapshot_with_names`
unfoldable pub from_snapshot_with_names :
    EngineSnapshot → List ServiceName → List Text → OwnershipIndex
unfolding index_containers drop_duplicates index_networks index_volumes values
from_snapshot_with_names snapshot services names =
    let (ix, duplicates) =
      index_containers services names (values snapshot.containers) (empty_index, []) in
    index_volumes (values snapshot.volumes)
      (index_networks (values snapshot.networks) (drop_duplicates duplicates ix))

unfoldable pub from_snapshot : EngineSnapshot → List ServiceName → OwnershipIndex
unfolding from_snapshot_with_names
from_snapshot snapshot services = from_snapshot_with_names snapshot services []
