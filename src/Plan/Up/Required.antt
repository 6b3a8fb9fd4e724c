-- ===== src/Plan/Up/Required.antt =====
-- crates/susun-planner/src/up: what a service uses is among what is planned, and is looked up there.
use mathlib.Core.List.{Memᴰ}
use mathlib.Core.List.Memᴰ.{head, tail}
use susun.Prelude.{
  ◌≡◌, sym, ap, true, some, List, [], ◌∷◌, ◌++◌, Text, arith, list_eq, nat_eq, ◌=?◌, =?_refl,
  list_beq_iff, Bool-cases, Option-cases, inl, inr, ◌∙◌,
}
use susun.IndexMap.{
  IndexMap, contains, get, keys, insert, contains-keys-insert, contains-append,
  contains-from_iter_onto,
}
use susun.Model.{ServiceName, Service, CanonicalVolume, VolumeKind, ImageRef, NetworkAttachment}
use susun.Plan.{ActionId}
use susun.Plan.Input.{PlanningInput}
use susun.Plan.Up.Needs.{
  is_named, volume_sources, service_volumes, required_named_volumes, service_images,
  required_images,
}
use susun.Plan.Up.Mounts.{add_networks}
use susun.Plan.Up.Resources.{UpResourceActions}
use susun.Plan.Up.Services.{image_names, resource_dependencies}
use susun.Plan.Up.Found.{add_found-found, add_all_found-kept, add_all_found-found}

-- The source of a named volume of the service.
pub volume_sources-member :
    (volumes : List CanonicalVolume) (v : CanonicalVolume) (source : Text)
    → Memᴰ v volumes
    → v.kind ≡ VolumeKind.volume
    → v.source ≡ some source
    → contains (volume_sources volumes) source ≡ true
unfolding volume_sources contains
volume_sources-member [] v source m k e = elim m [ ]
volume_sources-member (w ∷ volumes) v source (head same) k e =
    let kind : w.kind ≡ VolumeKind.volume = ap (λ (x : CanonicalVolume). x.kind) (sym same) ∙ k in
    let src : w.source ≡ some source = ap (λ (x : CanonicalVolume). x.source) (sym same) ∙ e in
    rw (kind, src, volume_sources) (ground (arith, =?_refl source))
volume_sources-member (w ∷ volumes) v source (tail m) k e =
    let later = volume_sources-member volumes v source m k e in
    elim (Bool-cases (is_named w.kind)) [
      | inr other ↦ rw (other, volume_sources) later
      | inl named ↦ elim (Option-cases w.source) [
        | inl absent ↦ rw (named, absent, volume_sources) later
        | inr (first, found) ↦ rw (named, found, volume_sources) (ground (arith, later))
      ]
    ]

module _ (input : PlanningInput) (s : ServiceName) (service : Service)
    (declared : get input.project.services s ≡ some service) where
  service_volumes-member :
      (names : List ServiceName) (source : Text)
      → contains names s ≡ true
      → contains (volume_sources service.volumes) source ≡ true
      → contains (service_volumes input names) source ≡ true
  unfolding service_volumes contains
  service_volumes-member [] source m h = cc
  service_volumes-member (name ∷ names) source m h = elim (Bool-cases (name =? s)) [
    | inl same ↦
        let e = (list_beq_iff name s).0 same in
        let found : get input.project.services name ≡ some service = rw e declared in
        rw (found, service_volumes)
          (ground (
            arith,
            contains-append (volume_sources service.volumes) (service_volumes input names) source,
            h,
          ))
    | inr other ↦
        let later = service_volumes-member names source (ground (arith, m, other)) h in
        elim (Option-cases (get input.project.services name)) [
          | inl absent ↦ rw (absent, service_volumes) later
          | inr (t, found) ↦
              rw (found, service_volumes)
                (ground (
                  arith,
                  contains-append (volume_sources t.volumes) (service_volumes input names) source,
                  later,
                ))
        ]
  ]

  service_images-member :
      (names : List ServiceName) (image : ImageRef)
      → contains names s ≡ true
      → service.image ≡ some image
      → contains (service_images input names) image ≡ true
  unfolding service_images contains
  service_images-member [] image m h = cc
  service_images-member (name ∷ names) image m h = elim (Bool-cases (name =? s)) [
    | inl same ↦
        let e = (list_beq_iff name s).0 same in
        let found : get input.project.services name ≡ some service = rw e declared in
        rw (found, h, service_images) (ground (arith, =?_refl image))
    | inr other ↦
        let later = service_images-member names image (ground (arith, m, other)) h in
        elim (Option-cases (get input.project.services name)) [
          | inl absent ↦ rw (absent, service_images) later
          | inr (t, found) ↦ elim (Option-cases t.image) [
            | inl bare ↦ rw (found, bare, service_images) later
            | inr (i, has) ↦ rw (found, has, service_images) (ground (arith, later))
          ]
        ]
  ]

  pub required_named_volumes-member :
      (source : Text)
      → contains input.selection.active_services s ≡ true
      → contains (volume_sources service.volumes) source ≡ true
      → contains (required_named_volumes input) source ≡ true
  unfolding required_named_volumes contains
  required_named_volumes-member source active h =
      let all = service_volumes input input.selection.active_services in
      ground (
        arith,
        contains-from_iter_onto [] (keys input.project.volumes ++ all) source,
        contains-append (keys input.project.volumes) all source,
        service_volumes-member input.selection.active_services source active h,
      )

  pub required_images-member :
      (image : ImageRef)
      → contains input.selection.active_services s ≡ true
      → service.image ≡ some image
      → contains (required_images input) image ≡ true
  unfolding required_images contains
  required_images-member image active h = ground (
    arith,
    contains-from_iter_onto [] (service_images input input.selection.active_services) image,
    service_images-member input.selection.active_services image active h,
  )

-- The ids that a container waits for.
module _ (s : ServiceName) (service : Service) (resources : UpResourceActions) (id : ActionId) where
  pub build-dependency :
      get resources.builds s ≡ some id
      → contains (resource_dependencies s service resources) id ≡ true
  unfolding resource_dependencies
  build-dependency h = add_all_found-kept _ (volume_sources service.volumes) _ id (
      add_all_found-kept _ (keys service.networks) _ id
        (add_all_found-kept _ (image_names service.image) _ id (add_found-found _ s [] id h)))

  pub image-dependency :
      (image : ImageRef)
      → service.image ≡ some image
      → get resources.images image ≡ some id
      → contains (resource_dependencies s service resources) id ≡ true
  unfolding resource_dependencies contains
  image-dependency image e h = add_all_found-kept _ (volume_sources service.volumes) _ id (
      add_all_found-kept _ (keys service.networks) _ id (
        add_all_found-found resources.images (image_names service.image) _ image id
          (rw (e, image_names) (ground (arith, =?_refl image))) h))

  pub network-dependency :
      (name : Text)
      → contains (keys service.networks) name ≡ true
      → get resources.networks name ≡ some id
      → contains (resource_dependencies s service resources) id ≡ true
  unfolding resource_dependencies
  network-dependency name m h =
      add_all_found-kept _ (volume_sources service.volumes) _ id
        (add_all_found-found resources.networks (keys service.networks) _ name id m h)

  pub volume-dependency :
      (source : Text)
      → contains (volume_sources service.volumes) source ≡ true
      → get resources.volumes source ≡ some id
      → contains (resource_dependencies s service resources) id ≡ true
  unfolding resource_dependencies
  volume-dependency source m h =
      add_all_found-found resources.volumes (volume_sources service.volumes) _ source id m h

module _ (names : IndexMap Text Text) where
  add_networks-kept :
      (networks attached : IndexMap Text NetworkAttachment) (rn : Text)
      → contains (keys attached) rn ≡ true
      → contains (keys (add_networks names networks attached)) rn ≡ true
  unfolding add_networks
  add_networks-kept [] attached rn h = h
  add_networks-kept ((n, a) ∷ networks) attached rn h = elim (Option-cases (get names n)) [
    | inl absent ↦ rw (absent, add_networks) (add_networks-kept networks attached rn h)
    | inr (r, found) ↦
        rw (found, add_networks)
          (add_networks-kept networks (insert r a attached) rn
            (ground (arith, contains-keys-insert attached r a rn, h)))
  ]

  pub add_networks-attached :
      (networks attached : IndexMap Text NetworkAttachment) (n rn : Text)
      → contains (keys networks) n ≡ true
      → get names n ≡ some rn
      → contains (keys (add_networks names networks attached)) rn ≡ true
  unfolding add_networks keys contains
  add_networks-attached [] attached n rn m h = cc
  add_networks-attached ((k, a) ∷ networks) attached n rn m h = elim (Bool-cases (k =? n)) [
    | inl same ↦
        let e = (list_beq_iff k n).0 same in
        let found : get names k ≡ some rn = rw e h in
        rw (found, add_networks)
          (add_networks-kept networks (insert rn a attached) rn
            (ground (arith, contains-keys-insert attached rn a rn, =?_refl rn)))
    | inr other ↦ elim (Option-cases (get names k)) [
      | inl absent ↦
          rw (absent, add_networks)
            (add_networks-attached networks attached n rn (ground (arith, m, other)) h)
      | inr (r, found) ↦
          rw (found, add_networks)
            (add_networks-attached networks (insert r a attached) n rn (ground (arith, m, other)) h)
    ]
  ]
