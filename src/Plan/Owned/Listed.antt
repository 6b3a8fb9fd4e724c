-- ===== src/Plan/Owned/Listed.antt =====
-- crates/susun-planner/src/ownership.rs: which services the index lists.
use mathlib.Core.List.{Memᴰ}
use mathlib.Core.List.Memᴰ.{head, tail}
use susun.Prelude.{
  ◌≡◌, sym, ap, ◌∙◌, true, some, List, [], ◌∷◌, ◌++◌, Text, arith, list_eq, nat_eq, option_eq, ◌=?◌,
  =?_refl, list_beq_iff, Bool-cases, Option-cases, inl, inr,
}
use susun.IndexMap.{IndexMap, get, insert, get-insert}
use susun.Engine.{ProjectInstanceId, ServiceInstanceId, ObservedContainer}
use susun.Model.{ServiceName}
use susun.Plan.Owned.{ids_of, index_container, index_containers}

-- The index has a container of the service.
pub record IsListed (index : IndexMap ServiceName (List Text)) (s : ServiceName) : Type 0 where
  pub first : Text
  pub others : List Text
  pub listed : get index s ≡ some (first ∷ others)

IsListed-insert :
    (index : IndexMap ServiceName (List Text)) (s : ServiceName) (ids : List Text) (id : Text)
    → IsListed (insert s (ids ++ id ∷ []) index) s
IsListed-insert index s [] id = record {
  first = id;
  others = [];
  listed = ground (arith, get-insert index s s (id ∷ []), =?_refl s);
}
IsListed-insert index s (x ∷ ids) id = record {
  first = x;
  others = ids ++ id ∷ [];
  listed = ground (arith, get-insert index s s (x ∷ ids ++ id ∷ []), =?_refl s);
}

module _ (project : ProjectInstanceId) where
  insert-kept :
      (index : IndexMap ServiceName (List Text)) (t : ServiceName) (ids : List Text) (id : Text)
      (s : ServiceName)
      → IsListed index s
      → IsListed (insert t (ids ++ id ∷ []) index) s
  insert-kept index t ids id s l = elim (Bool-cases (t =? s)) [
    | inl same ↦ let e = (list_beq_iff t s).0 same in rw (← e) (IsListed-insert index t ids id)
    | inr other ↦ record {
      first = l.first;
      others = l.others;
      listed = ground (arith, get-insert index t s (ids ++ id ∷ []), other, l.listed);
    }
  ]

  index_container-kept :
      (c : ObservedContainer) (index : IndexMap ServiceName (List Text)) (s : ServiceName)
      → IsListed index s
      → IsListed (index_container project c index) s
  unfolding index_container
  index_container-kept c index s l = elim (Bool-cases (c.project_identity =? some project)) [
    | inr foreign ↦ rw (foreign, index_container) l
    | inl own ↦ elim (Option-cases c.service_identity) [
      | inl absent ↦ rw (own, absent, index_container) l
      | inr (id, found) ↦ elim (Bool-cases (id.project =? project)) [
        | inr other ↦ rw (own, found, other, index_container) l
        | inl same ↦
            rw (own, found, same, index_container)
              (insert-kept index id.service (ids_of index id.service) c.id s l)
      ]
    ]
  ]

  index_container-member :
      (c : ObservedContainer) (index : IndexMap ServiceName (List Text)) (id : ServiceInstanceId)
      → c.project_identity ≡ some project
      → c.service_identity ≡ some id
      → id.project ≡ project
      → IsListed (index_container project c index) id.service
  unfolding index_container
  index_container-member c index id of_project claims same =
      let own : (c.project_identity =? some project) ≡ true =
        rw of_project (=?_refl (some project)) in
      let here : (id.project =? project) ≡ true = rw same (=?_refl project) in
      rw (own, claims, here, index_container)
        (IsListed-insert index id.service (ids_of index id.service) c.id)

  index_containers-kept :
      (cs : List ObservedContainer) (index : IndexMap ServiceName (List Text)) (s : ServiceName)
      → IsListed index s
      → IsListed (index_containers project cs index) s
  unfolding index_containers
  index_containers-kept [] index s l = l
  index_containers-kept (c ∷ cs) index s l =
      index_containers-kept cs (index_container project c index) s
        (index_container-kept c index s l)

  -- The service of every container that the project owns is listed.
  pub index_containers-member :
      (cs : List ObservedContainer) (index : IndexMap ServiceName (List Text))
      (c : ObservedContainer) (id : ServiceInstanceId)
      → Memᴰ c cs
      → c.project_identity ≡ some project
      → c.service_identity ≡ some id
      → id.project ≡ project
      → IsListed (index_containers project cs index) id.service
  unfolding index_containers
  index_containers-member [] index c id m p s q = elim m [ ]
  index_containers-member (x ∷ cs) index c id (head e) p s q =
      index_containers-kept cs (index_container project x index) id.service (
        index_container-member x index id
          (ap (λ (o : ObservedContainer). o.project_identity) (sym e) ∙ p)
          (ap (λ (o : ObservedContainer). o.service_identity) (sym e) ∙ s) q)
  index_containers-member (x ∷ cs) index c id (tail m) p s q =
      index_containers-member cs (index_container project x index) c id m p s q
