-- ===== src/Convergence/Ownership/Claims.antt =====
-- crates/susun-convergence/src/ownership.rs: the loop over the containers, in terms of the containers
-- that claim an instance.
use susun.Prelude.{
  ◌≡◌, refl, ◌∙◌, Bool, true, false, ◌||◌, ◌&&◌, Option, none, some, List, [], ◌∷◌, ◌++◌, Text,
  arith, list_eq, nat_eq, ◌=?◌, not, if◌then◌else◌, Option-cases, inl, inr,
}
use susun.IndexMap.{
  contains, IsDistinct, get, keys, get-insert, contains-keys-insert, keys-insert-IsDistinct,
}
use susun.Model.{ServiceName}
use susun.Engine.{
  ServiceInstanceId, instance_eq, instance_beq_iff, network_eq, volume_eq, ObservedContainer,
}
use susun.Convergence.Ownership.{
  OwnershipIndex, Duplicates, claims_of, index_container, index_containers,
}

-- The container claims the instance `k` of a desired service.
abbrev pub claims : List ServiceName → ServiceInstanceId → ObservedContainer → Bool
claims services k c = elim c.service_identity [
  | none ↦ false
  | some id ↦ (id =? k) && contains services id.service
]

-- The containers that claim it.
abbrev pub claimants :
    List ServiceName → ServiceInstanceId → List ObservedContainer → List ObservedContainer
claimants services k [] = []
claimants services k (c ∷ cs) =
    let rest = claimants services k cs in if claims services k c then c ∷ rest else rest

-- The element of a list of one.
abbrev pub sole {ℓ} : {A : Type ℓ} → List A → Option A
sole (x ∷ []) = some x
sole _ = none

abbrev pub is_several {ℓ} : {A : Type ℓ} → List A → Bool
is_several (x ∷ y ∷ xs) = true
is_several _ = false

abbrev pub present {ℓ} : {A : Type ℓ} → Option A → List A
present none = []
present (some x) = x ∷ []

abbrev pub first {ℓ} : {A : Type ℓ} → List A → Option A
first [] = none
first (x ∷ xs) = some x

abbrev is_some {ℓ} : {A : Type ℓ} → Option A → Bool
is_some none = false
is_some (some x) = true

module _ (services : List ServiceName) (names : List Text) where
  -- The owner that the index has after one round.
  index_container-containers :
      (c : ObservedContainer) (ix : OwnershipIndex) (d : Duplicates) (k : ServiceInstanceId)
      → get (index_container services names c (ix, d)).0.containers k ≡ (
          if claims services k c && not (is_some (get ix.containers k))
          then some c
          else get ix.containers k)
  unfolding index_container
  index_container-containers c ix d k = elim (Option-cases c.service_identity) [
    | inl e ↦ ground (arith, e)
    | inr (id, e) ↦ ground (arith, e, instance_beq_iff id k, get-insert ix.containers id k c)
  ]

  index_container-duplicates :
      (c : ObservedContainer) (ix : OwnershipIndex) (d : Duplicates) (k : ServiceInstanceId)
      → contains (keys (index_container services names c (ix, d)).1) k
        ≡ (contains (keys d) k || (claims services k c && is_some (get ix.containers k)))
  unfolding index_container
  index_container-duplicates c ix d k = elim (Option-cases c.service_identity) [
    | inl e ↦ ground (arith, e)
    | inr (id, e) ↦ elim (Option-cases (get ix.containers id)) [
      | inl free ↦ ground (arith, e, free, instance_beq_iff id k)
      | inr (existing, taken) ↦ ground (
        arith,
        e,
        taken,
        instance_beq_iff id k,
        contains-keys-insert d id (claims_of d id ++ existing ∷ c ∷ []) k,
      )
    ]
  ]

  index_container-IsDistinct :
      (c : ObservedContainer) (ix : OwnershipIndex) (d : Duplicates)
      → IsDistinct (keys ix.containers)
      → IsDistinct (keys (index_container services names c (ix, d)).0.containers)
  unfolding index_container
  index_container-IsDistinct c ix d h = elim (Option-cases c.service_identity) [
    | inl e ↦ ground (arith, e)
    | inr (id, e) ↦ ground (arith, e, keys-insert-IsDistinct ix.containers id c h)
  ]

  -- The tables after the loop.
  pub index_containers-containers :
      (cs : List ObservedContainer) (ix : OwnershipIndex) (d : Duplicates) (k : ServiceInstanceId)
      → get (index_containers services names cs (ix, d)).0.containers k
        ≡ first (present (get ix.containers k) ++ claimants services k cs)
  unfolding index_containers
  index_containers-containers [] ix d k = elim (Option-cases (get ix.containers k)) [
    | inl e ↦ ground (arith, e)
    | inr (x, e) ↦ ground (arith, e)
  ]
  index_containers-containers (c ∷ cs) ix d k =
      let (ix', d') = index_container services names c (ix, d) in
      ground (arith, index_containers-containers cs ix' d' k, index_container-containers c ix d k)

  pub index_containers-duplicates :
      (cs : List ObservedContainer) (ix : OwnershipIndex) (d : Duplicates) (k : ServiceInstanceId)
      → contains (keys (index_containers services names cs (ix, d)).1) k ≡ (
          contains (keys d) k
          || is_several (present (get ix.containers k) ++ claimants services k cs))
  unfolding index_containers
  index_containers-duplicates [] ix d k = ground arith
  index_containers-duplicates (c ∷ cs) ix d k =
      let (ix', d') = index_container services names c (ix, d) in
      ground (
        arith,
        index_containers-duplicates cs ix' d' k,
        index_container-containers c ix d k,
        index_container-duplicates c ix d k,
      )

  pub index_containers-IsDistinct :
      (cs : List ObservedContainer) (ix : OwnershipIndex) (d : Duplicates)
      → IsDistinct (keys ix.containers)
      → IsDistinct (keys (index_containers services names cs (ix, d)).0.containers)
  unfolding index_containers
  index_containers-IsDistinct [] ix d h = h
  index_containers-IsDistinct (c ∷ cs) ix d h =
      let (ix', d') = index_container services names c (ix, d) in
      index_containers-IsDistinct cs ix' d' (index_container-IsDistinct c ix d h)

  index_container-duplicate_claims :
      (c : ObservedContainer) (ix : OwnershipIndex) (d : Duplicates)
      → (index_container services names c (ix, d)).0.duplicate_claims ≡ ix.duplicate_claims
  unfolding index_container
  index_container-duplicate_claims c ix d = elim (Option-cases c.service_identity) [
    | inl e ↦ ground (arith, e)
    | inr (id, e) ↦ ground (arith, e)
  ]

  pub index_containers-duplicate_claims :
      (cs : List ObservedContainer) (ix : OwnershipIndex) (d : Duplicates)
      → (index_containers services names cs (ix, d)).0.duplicate_claims ≡ ix.duplicate_claims
  unfolding index_containers
  index_containers-duplicate_claims [] ix d = refl
  index_containers-duplicate_claims (c ∷ cs) ix d =
      let (ix', d') = index_container services names c (ix, d) in
      index_containers-duplicate_claims cs ix' d' ∙ index_container-duplicate_claims c ix d
