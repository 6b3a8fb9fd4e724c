-- ===== src/Convergence/Ownership/Owners.antt =====
-- crates/susun-convergence/src/ownership.rs: the result of `from_snapshot_with_names`.
use susun.Prelude.{
  ◌≡◌, refl, ◌∙◌, ap, ◌||◌, none, List, [], ◌∷◌, ◌++◌, Text, arith, list_eq, nat_eq, if◌then◌else◌,
  Option-cases, inl, inr,
}
use susun.IndexMap.{
  contains, IsDistinct, get, insert, shift_remove, keys, values, get-shift_remove,
  keys-shift_remove-IsDistinct,
}
use susun.Model.{ServiceName}
use susun.Engine.{
  ServiceInstanceId, instance_eq, network_eq, volume_eq, ObservedNetwork, ObservedVolume,
  EngineSnapshot,
}
use susun.Convergence.Ownership.{
  OwnershipConflict, OwnershipIndex, Duplicates, empty_index, index_containers, drop_duplicates,
  index_networks, index_volumes, from_snapshot_with_names,
}
use susun.Convergence.Ownership.Claims.{
  claimants, sole, is_several, index_containers-containers, index_containers-duplicates,
  index_containers-IsDistinct, index_containers-duplicate_claims,
}
use susun.Convergence.Diff.{any_conflict}

drop_duplicates-containers :
    (d : Duplicates) (ix : OwnershipIndex) (k : ServiceInstanceId)
    → IsDistinct (keys ix.containers)
    → get (drop_duplicates d ix).containers k
      ≡ (if contains (keys d) k then none else get ix.containers k)
unfolding drop_duplicates keys contains
drop_duplicates-containers [] ix k h = refl
drop_duplicates-containers ((id, claims) ∷ d) ix k h = ground (
  arith,
  get-shift_remove ix.containers id k h,
  drop_duplicates-containers d
      (record ix {
        containers = shift_remove id ix.containers;
        duplicate_claims =
            ix.duplicate_claims ++ record { instance_id = id; containers = claims } ∷ [];
      })
      k (keys-shift_remove-IsDistinct ix.containers id h),
)

any_conflict-append :
    (k : ServiceInstanceId) (xs ys : List OwnershipConflict)
    → any_conflict k (xs ++ ys) ≡ (any_conflict k xs || any_conflict k ys)
unfolding any_conflict
any_conflict-append k [] ys = refl
any_conflict-append k (x ∷ xs) ys = ground (arith, any_conflict-append k xs ys)

drop_duplicates-conflicts :
    (d : Duplicates) (ix : OwnershipIndex) (k : ServiceInstanceId)
    → any_conflict k (drop_duplicates d ix).duplicate_claims
      ≡ (any_conflict k ix.duplicate_claims || contains (keys d) k)
unfolding drop_duplicates keys contains any_conflict
drop_duplicates-conflicts [] ix k = ground arith
drop_duplicates-conflicts ((id, claims) ∷ d) ix k = ground (
  arith,
  any_conflict-append k ix.duplicate_claims (record { instance_id = id; containers = claims } ∷ []),
  drop_duplicates-conflicts d
      (record ix {
        containers = shift_remove id ix.containers;
        duplicate_claims =
            ix.duplicate_claims ++ record { instance_id = id; containers = claims } ∷ [];
      })
      k,
)

index_networks-containers :
    (ns : List ObservedNetwork) (ix : OwnershipIndex)
    → ((index_networks ns ix).containers ≡ ix.containers)
      × ((index_networks ns ix).duplicate_claims ≡ ix.duplicate_claims)
unfolding index_networks
index_networks-containers [] ix = (refl, refl)
index_networks-containers (n ∷ ns) ix = elim (Option-cases n.network_identity) [
  | inl e ↦ ground (arith, e, index_networks-containers ns ix)
  | inr (id, e) ↦ ground (
    arith,
    e,
    index_networks-containers ns (record ix { project_networks = insert id n ix.project_networks }),
  )
]

index_volumes-containers :
    (vs : List ObservedVolume) (ix : OwnershipIndex)
    → ((index_volumes vs ix).containers ≡ ix.containers)
      × ((index_volumes vs ix).duplicate_claims ≡ ix.duplicate_claims)
unfolding index_volumes
index_volumes-containers [] ix = (refl, refl)
index_volumes-containers (v ∷ vs) ix = elim (Option-cases v.volume_identity) [
  | inl e ↦ ground (arith, e, index_volumes-containers vs ix)
  | inr (id, e) ↦ ground (
    arith,
    e,
    index_volumes-containers vs (record ix { project_volumes = insert id v ix.project_volumes }),
  )
]

module _ (snapshot : EngineSnapshot) (services : List ServiceName) (names : List Text)
    (k : ServiceInstanceId) where
  -- The container that the index has for an instance of a desired service is the one container of the
  -- snapshot that claims it: there is none if no container or several containers claim it.
  pub from_snapshot_with_names-containers :
      get (from_snapshot_with_names snapshot services names).containers k
      ≡ sole (claimants services k (values snapshot.containers))
  unfolding from_snapshot_with_names get keys contains
  from_snapshot_with_names-containers =
      let (ix, d) =
        index_containers services names (values snapshot.containers) (empty_index, []) in
      let dropped = drop_duplicates d ix in
      let nets = index_networks (values snapshot.networks) dropped in
      ap (λ m. get m k)
        ((index_volumes-containers (values snapshot.volumes) nets).0
          ∙ (index_networks-containers (values snapshot.networks) dropped).0)
      ∙ drop_duplicates-containers d ix k (
          index_containers-IsDistinct services names (values snapshot.containers) empty_index [] tt)
      ∙ ground (
        arith,
        index_containers-containers services names (values snapshot.containers) empty_index [] k,
        index_containers-duplicates services names (values snapshot.containers) empty_index [] k,
      )

  -- The index reports a conflict for an instance of a desired service exactly if several containers of
  -- the snapshot claim it.
  pub from_snapshot_with_names-any_conflict :
      any_conflict k (from_snapshot_with_names snapshot services names).duplicate_claims
      ≡ is_several (claimants services k (values snapshot.containers))
  unfolding from_snapshot_with_names any_conflict keys contains get
  from_snapshot_with_names-any_conflict =
      let (ix, d) =
        index_containers services names (values snapshot.containers) (empty_index, []) in
      let dropped = drop_duplicates d ix in
      let nets = index_networks (values snapshot.networks) dropped in
      ap (any_conflict k) (
        (index_volumes-containers (values snapshot.volumes) nets).1
        ∙ (index_networks-containers (values snapshot.networks) dropped).1)
      ∙ drop_duplicates-conflicts d ix k
      ∙ ground (
        arith,
        index_containers-duplicate_claims services names (values snapshot.containers) empty_index
            [],
        index_containers-duplicates services names (values snapshot.containers) empty_index [] k,
      )
