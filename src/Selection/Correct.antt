-- ===== src/Selection/Correct.antt =====
-- crates/susun-normalize/src/selection.rs: the selected services, and their graph.
use susun.Prelude.{
  true, ◌↔◌, ◌=?◌, =?_refl, Bool-cases, ◌≡◌, refl, ◌∙◌, Bool, false, none, some, List, [], ◌∷◌,
  Text, arith, list_eq, nat_eq, list_beq_iff, Option-cases, inl, inr,
}
use susun.IndexMap.{
  IndexMap, contains, from_iter_onto, IsDistinct, get, keys, get-none_iff, contains-from_iter_onto,
}
use susun.Model.{ServiceName, Service, Project}
use susun.Selection.{any_active, is_active, active_names, select_services}

-- The project has a service of this name, and it names no profile, or one of those that are given.
pub data IsSelected (project : Project) (profiles : List Text) (name : ServiceName) : Type 0 where
  always :
      (service : Service)
      → get project.services name ≡ some service
      → service.profiles ≡ []
      → IsSelected project profiles name
  by_profile :
      (service : Service) (profile : Text)
      → get project.services name ≡ some service
      → contains service.profiles profile ≡ true
      → contains profiles profile ≡ true
      → IsSelected project profiles name

-- The service that a name has, if it has one, is active.
abbrev is_active_name : (active : List Text) → IndexMap ServiceName Service → ServiceName → Bool
is_active_name active services name = elim (get services name) [
  | none ↦ false
  | some service ↦ is_active active service
]

any_active-from_iter_onto :
    (active profiles : List Text)
    → any_active (from_iter_onto [] active) profiles ≡ any_active active profiles
unfolding contains
any_active-from_iter_onto active [] = refl
any_active-from_iter_onto active (p ∷ profiles) =
    ground (arith, contains-from_iter_onto [] active p, any_active-from_iter_onto active profiles)

is_active-from_iter_onto :
    (active : List Text) (service : Service)
    → is_active (from_iter_onto [] active) service ≡ is_active active service
is_active-from_iter_onto active service =
    ground (arith, any_active-from_iter_onto active service.profiles)

is_active_name-from_iter_onto :
    (active : List Text) (services : IndexMap ServiceName Service) (name : ServiceName)
    → is_active_name (from_iter_onto [] active) services name ≡ is_active_name active services name
is_active_name-from_iter_onto active services name = elim (Option-cases (get services name)) [
  | inl e ↦ ground (arith, e)
  | inr (service, e) ↦ ground (arith, e, is_active-from_iter_onto active service)
]

contains-active_names :
    (active : List Text) (services : IndexMap ServiceName Service) (name : ServiceName)
    → IsDistinct (keys services)
    → contains (active_names active services) name ≡ is_active_name active services name
unfolding active_names get keys contains
contains-active_names active [] name d = refl
contains-active_names active ((k, service) ∷ services) name d = ground (
  arith,
  contains-active_names active services name d.1,
  list_beq_iff k name,
  get-none_iff services k,
)

any_active-member :
    (active profiles : List Text)
    → any_active active profiles ≡ true
    → (p : Text) × (contains profiles p ≡ true) × (contains active p ≡ true)
unfolding contains
any_active-member active [] h = cc
any_active-member active (p ∷ profiles) h = elim (Bool-cases (contains active p)) [
  | inl here ↦ (p, ground (arith, =?_refl p), here)
  | inr other ↦
      let (q, m, a) = any_active-member active profiles (ground (arith, h, other)) in
      (q, ground (arith, m), a)
]

any_active-found :
    (active profiles : List Text) (p : Text)
    → contains profiles p ≡ true
    → contains active p ≡ true
    → any_active active profiles ≡ true
unfolding contains
any_active-found active [] p m a = cc
any_active-found active (q ∷ profiles) p m a = elim (Bool-cases (q =? p)) [
  | inl same ↦ rw ((list_beq_iff q p).0 same) (ground (arith, a))
  | inr other ↦ ground (arith, any_active-found active profiles p (ground (arith, m, other)) a)
]

is_active-IsSelected :
    (project : Project) (profiles : List Text) (name : ServiceName) (service : Service)
    → get project.services name ≡ some service
    → is_active profiles service ≡ true
    → IsSelected project profiles name
is_active-IsSelected project profiles name service found h = by_cases service.profiles refl
  where
    by_cases : (listed : List Text) → service.profiles ≡ listed → IsSelected project profiles name
    by_cases [] e = always service found e
    by_cases (p ∷ ps) e =
        let any : any_active profiles (p ∷ ps) ≡ true = rw (e, is_active) at h in
        let (q, m, a) = any_active-member profiles (p ∷ ps) any in
        by_profile service q found (rw e m) a

IsSelected-is_active_name :
    (project : Project) (profiles : List Text) (name : ServiceName)
    → IsSelected project profiles name
    → is_active_name profiles project.services name ≡ true
unfolding contains
IsSelected-is_active_name project profiles name (always service found e) = ground (arith, found, e)
IsSelected-is_active_name project profiles name (by_profile service p found m a) =
    rw (found, is_active_name) (listed service.profiles m)
  where
    listed :
        (ps : List Text)
        → contains ps p ≡ true
        → (elim ps [ [] ↦ true | q ∷ qs ↦ any_active profiles (q ∷ qs) ]) ≡ true
    listed [] h = refl
    listed (q ∷ qs) h = any_active-found profiles (q ∷ qs) p h a

-- In a project that names no service twice (`IndexMap`), a service is selected exactly if the project
-- has it, and it names no profile, or one of those that are given.
pub contains-select_services :
    (project : Project) (profiles : List Text) (name : ServiceName)
    → IsDistinct (keys project.services)
    → (contains (select_services project profiles).active_services name ≡ true)
      ↔ IsSelected project profiles name
unfolding select_services contains
contains-select_services project profiles name d =
    let eq =
      contains-from_iter_onto [] (active_names (from_iter_onto [] profiles) project.services) name
      ∙ contains-active_names (from_iter_onto [] profiles) project.services name d
      ∙ is_active_name-from_iter_onto profiles project.services name in
    (
      λ h. elim (Option-cases (get project.services name)) [
        | inl absent ↦ let none_active : false ≡ true = ground (arith, absent, eq, h) in cc
        | inr (service, found) ↦
            is_active-IsSelected project profiles name service found (ground (arith, found, eq, h))
      ],
      λ s. eq ∙ IsSelected-is_active_name project profiles name s,
    )
