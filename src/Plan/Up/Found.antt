-- ===== src/Plan/Up/Found.antt =====
-- crates/susun-planner/src/up/services.rs: the sets of dependencies that are looked up in the planned ids.
use susun.Prelude.{
  ◌≡◌, true, some, List, [], ◌∷◌, Text, arith, list_eq, nat_eq, ◌=?◌, list_beq_iff, =?_refl,
  Bool-cases, Option-cases, inl, inr,
}
use susun.IndexMap.{
  IndexMap, contains, get, keys, insert, get-insert, insert_set, IsDistinct, contains-insert_set,
  IsDistinct-insert_set,
}
use susun.Model.{ServiceName, Service}
use susun.Plan.{ActionId}
use susun.Plan.Input.{Actions}
use susun.Plan.Up.Resources.{UpResourceActions}
use susun.Plan.Up.Services.{add_found, add_all_found, resource_dependencies}
use susun.Plan.Up.Grown.{Extends, Extends-key}

-- Every id of a map is that of an action.
abbrev pub AllKnown : IndexMap Text ActionId → Actions → Type 0
AllKnown ids actions =
    (name : Text) (id : ActionId) → get ids name ≡ some id → contains (keys actions) id ≡ true

pub AllKnown-insert :
    (ids : IndexMap Text ActionId) (name : Text) (id : ActionId) (actions : Actions)
    → AllKnown ids actions
    → contains (keys actions) id ≡ true
    → AllKnown (insert name id ids) actions
AllKnown-insert ids name id actions known there n i h =
    ground (arith, get-insert ids name n id, h, known n i, there)

pub AllKnown-Extends :
    (ids : IndexMap Text ActionId) (actions next : Actions)
    → Extends actions next
    → AllKnown ids actions
    → AllKnown ids next
AllKnown-Extends ids actions next x known n i h = Extends-key actions next i x (known n i h)

-- A set of dependencies that an action may have.
pub record IsKnownSet (actions : Actions) (dependencies : List ActionId) : Type 0 where
  pub distinct : IsDistinct dependencies
  pub known : (u : ActionId) → contains dependencies u ≡ true → contains (keys actions) u ≡ true

module _ (actions : Actions) (ids : IndexMap Text ActionId) (known : AllKnown ids actions) where
  insert_set-IsKnownSet :
      (id : ActionId) (dependencies : List ActionId)
      → contains (keys actions) id ≡ true
      → IsKnownSet actions dependencies
      → IsKnownSet actions (insert_set id dependencies)
  insert_set-IsKnownSet id dependencies there s = record {
    distinct = IsDistinct-insert_set id dependencies s.distinct;
    known = λ u h.
        ground
          (arith, contains-insert_set id dependencies u, h, list_beq_iff id u, there, s.known u);
  }

  pub add_found-IsKnownSet :
      (name : Text) (dependencies : List ActionId)
      → IsKnownSet actions dependencies
      → IsKnownSet actions (add_found ids name dependencies)
  unfolding add_found
  add_found-IsKnownSet name dependencies s = elim (Option-cases (get ids name)) [
    | inl absent ↦ rw (absent, add_found) s
    | inr (id, found) ↦
        rw (found, add_found) (insert_set-IsKnownSet id dependencies (known name id found) s)
  ]

  pub add_all_found-IsKnownSet :
      (names : List Text) (dependencies : List ActionId)
      → IsKnownSet actions dependencies
      → IsKnownSet actions (add_all_found ids names dependencies)
  unfolding add_all_found
  add_all_found-IsKnownSet [] dependencies s = s
  add_all_found-IsKnownSet (name ∷ names) dependencies s =
      add_all_found-IsKnownSet names (add_found ids name dependencies)
        (add_found-IsKnownSet name dependencies s)

module _ (ids : IndexMap Text ActionId) where
  pub add_found-kept :
      (name : Text) (dependencies : List ActionId) (u : ActionId)
      → contains dependencies u ≡ true
      → contains (add_found ids name dependencies) u ≡ true
  unfolding add_found
  add_found-kept name dependencies u h = elim (Option-cases (get ids name)) [
    | inl absent ↦ rw (absent, add_found) h
    | inr (id, found) ↦
        rw (found, add_found) (ground (arith, contains-insert_set id dependencies u, h))
  ]

  pub add_found-found :
      (name : Text) (dependencies : List ActionId) (id : ActionId)
      → get ids name ≡ some id
      → contains (add_found ids name dependencies) id ≡ true
  unfolding add_found
  add_found-found name dependencies id found =
      rw (found, add_found) (ground (arith, contains-insert_set id dependencies id, =?_refl id))

  pub add_all_found-kept :
      (names : List Text) (dependencies : List ActionId) (u : ActionId)
      → contains dependencies u ≡ true
      → contains (add_all_found ids names dependencies) u ≡ true
  unfolding add_all_found
  add_all_found-kept [] dependencies u h = h
  add_all_found-kept (name ∷ names) dependencies u h =
      add_all_found-kept names (add_found ids name dependencies) u
        (add_found-kept name dependencies u h)

  pub add_all_found-found :
      (names : List Text) (dependencies : List ActionId) (name : Text) (id : ActionId)
      → contains names name ≡ true
      → get ids name ≡ some id
      → contains (add_all_found ids names dependencies) id ≡ true
  unfolding add_all_found contains
  add_all_found-found [] dependencies name id m found = cc
  add_all_found-found (n ∷ names) dependencies name id m found = elim (Bool-cases (n =? name)) [
    | inl same ↦
        let e = (list_beq_iff n name).0 same in
        add_all_found-kept names (add_found ids n dependencies) id
          (add_found-found n dependencies id (rw (← e) at found))
    | inr other ↦
        add_all_found-found names (add_found ids n dependencies) name id (ground (arith, m, other))
          found
  ]

-- Every planned id of a resource is that of an action.
pub record AreProvided (resources : UpResourceActions) (actions : Actions) : Type 0 where
  pub networks : AllKnown resources.networks actions
  pub volumes : AllKnown resources.volumes actions
  pub images : AllKnown resources.images actions
  pub builds : AllKnown resources.builds actions

pub AreProvided-Extends :
    (resources : UpResourceActions) (actions next : Actions)
    → Extends actions next
    → AreProvided resources actions
    → AreProvided resources next
AreProvided-Extends resources actions next x p = record {
  networks = AllKnown-Extends resources.networks actions next x p.networks;
  volumes = AllKnown-Extends resources.volumes actions next x p.volumes;
  images = AllKnown-Extends resources.images actions next x p.images;
  builds = AllKnown-Extends resources.builds actions next x p.builds;
}

pub resource_dependencies-IsKnownSet :
    (actions : Actions) (name : ServiceName) (service : Service) (resources : UpResourceActions)
    → AreProvided resources actions
    → IsKnownSet actions (resource_dependencies name service resources)
unfolding resource_dependencies contains
resource_dependencies-IsKnownSet actions name service resources p =
    add_all_found-IsKnownSet actions resources.volumes p.volumes _ _ (
      add_all_found-IsKnownSet actions resources.networks p.networks _ _ (
        add_all_found-IsKnownSet actions resources.images p.images _ _ (
          add_found-IsKnownSet actions resources.builds p.builds name []
            (record { distinct = tt; known = λ u h. cc }))))
