-- ===== src/Plan/Up/Placed.antt =====
-- crates/susun-planner/src/up/resources.rs: the actions for networks, volumes, builds and images, before the services.
use susun.Prelude.{◌≡◌, true, ◌⊎◌, refl, some, Text, list_eq, nat_eq, Bool-cases, inl, inr}
use susun.IndexMap.{contains, insert, get, values}
use susun.Model.{ServiceName, ImageRef, Service, BuildDefinition}
use susun.Plan.{pull_image, ActionId, PlanAction, ActionReason}
use susun.Plan.Input.{Actions, PlanningInput}
use susun.Plan.Naming.{NamingResult, NamingPolicy}
use susun.Plan.Yields.{Yields, yields}
use susun.Plan.Up.Needs.{
  network_exists_owned, network_name_conflicts, volume_exists_owned, volume_name_conflicts,
}
use susun.Plan.Up.Resources.{
  note_network, note_volume, ResourceState, add_resource, place_network, place_volume,
}
use susun.Plan.Up.Waits.{IsUpError}
use susun.Plan.Up.Noted.{ResourcesInv, note_network-Noting, note_volume-Noting}
use susun.Plan.Up.Facts.{
  Noted, network_ids, network_names, volume_ids, volume_names, image_ids, build_ids, HasEntry,
  HasEntry-kept, HasEntry-new, HasEntry-insert, NetworkReady, VolumeReady, BuildReady, network_of,
  volume_of, network_exists_owned-member, volume_exists_owned-member,
}
use susun.Plan.Up.Steps.{Has, Step, reported-Step, Keeping, add_resource-Step}
use susun.Plan.Up.Grown.{Does, Extends}
use mathlib.Core.List.{Memᴰ}
use susun.Engine.{ObservedImage}

module _ (input : PlanningInput) (naming : NamingPolicy) where
  abbrev pub PlansNetwork : Text → ResourceState → Type 0
  PlansNetwork name s = Has input naming network_ids name s × Has input naming network_names name s

  abbrev pub PlansVolume : Text → ResourceState → Type 0
  PlansVolume name s = Has input naming volume_ids name s × Has input naming volume_names name s

  -- The snapshot has the image, or it is pulled.
  abbrev pub PlansImage : ImageRef → ResourceState → Type 0
  PlansImage image s =
      ((i : ObservedImage) × Memᴰ i (values input.snapshot.images)
        × (contains i.references image ≡ true))
      ⊎ Has input naming image_ids image s

  abbrev pub PlansBuild : ServiceName → ResourceState → Type 0
  PlansBuild name s =
      (service : Service) (build : BuildDefinition)
      → get input.project.services name ≡ some service
      → service.build ≡ some build
      → Has input naming build_ids name s

  module _ (st : ResourceState) (inv : ResourcesInv st) where
    network-Keeping :
        (name runtime_name : Text) (action : PlanAction)
        → naming.network_name (network_of input naming name) ≡ NamingResult.ok runtime_name
        → ((next : Actions) (id : ActionId)
            → Does next id action
            → NetworkReady input naming next name id)
        → Keeping input naming st inv action (note_network name runtime_name st.planned)
    network-Keeping name runtime_name action named ready next id x does network_ids n h =
        HasEntry-insert input naming network_ids st.planned _ st.actions next name id n refl
          (ready next id does) x h
    network-Keeping name runtime_name action named ready next id x does network_names n h =
        HasEntry-insert input naming network_names st.planned _ st.actions next name runtime_name n
          refl named x h
    network-Keeping name runtime_name action named ready next id x does volume_ids n h =
        HasEntry-kept input naming volume_ids st.planned _ st.actions next n refl x h
    network-Keeping name runtime_name action named ready next id x does volume_names n h =
        HasEntry-kept input naming volume_names st.planned _ st.actions next n refl x h
    network-Keeping name runtime_name action named ready next id x does image_ids n h =
        HasEntry-kept input naming image_ids st.planned _ st.actions next n refl x h
    network-Keeping name runtime_name action named ready next id x does build_ids n h =
        HasEntry-kept input naming build_ids st.planned _ st.actions next n refl x h

    volume-Keeping :
        (name runtime_name : Text) (action : PlanAction)
        → naming.volume_name (volume_of input naming name) ≡ NamingResult.ok runtime_name
        → ((next : Actions) (id : ActionId)
            → Does next id action
            → VolumeReady input naming next name id)
        → Keeping input naming st inv action (note_volume name runtime_name st.planned)
    volume-Keeping name runtime_name action named ready next id x does volume_ids n h =
        HasEntry-insert input naming volume_ids st.planned _ st.actions next name id n refl
          (ready next id does) x h
    volume-Keeping name runtime_name action named ready next id x does volume_names n h =
        HasEntry-insert input naming volume_names st.planned _ st.actions next name runtime_name n
          refl named x h
    volume-Keeping name runtime_name action named ready next id x does network_ids n h =
        HasEntry-kept input naming network_ids st.planned _ st.actions next n refl x h
    volume-Keeping name runtime_name action named ready next id x does network_names n h =
        HasEntry-kept input naming network_names st.planned _ st.actions next n refl x h
    volume-Keeping name runtime_name action named ready next id x does image_ids n h =
        HasEntry-kept input naming image_ids st.planned _ st.actions next n refl x h
    volume-Keeping name runtime_name action named ready next id x does build_ids n h =
        HasEntry-kept input naming build_ids st.planned _ st.actions next n refl x h

    pub image-Keeping :
        (image : ImageRef)
        → Keeping input naming st inv
            (pull_image image)
            (λ id. record (st.planned) { images = insert image id (st.planned.images) })
    image-Keeping image next id x does image_ids n h =
        HasEntry-insert input naming image_ids st.planned _ st.actions next image id n refl does x h
    image-Keeping image next id x does network_ids n h =
        HasEntry-kept input naming network_ids st.planned _ st.actions next n refl x h
    image-Keeping image next id x does network_names n h =
        HasEntry-kept input naming network_names st.planned _ st.actions next n refl x h
    image-Keeping image next id x does volume_ids n h =
        HasEntry-kept input naming volume_ids st.planned _ st.actions next n refl x h
    image-Keeping image next id x does volume_names n h =
        HasEntry-kept input naming volume_names st.planned _ st.actions next n refl x h
    image-Keeping image next id x does build_ids n h =
        HasEntry-kept input naming build_ids st.planned _ st.actions next n refl x h

    pub build_kept :
        (name : ServiceName) (next : Actions) (id : ActionId)
        → Extends st.actions next
        → BuildReady input naming next name id
        → (kind : Noted) (n : Text) → Has input naming kind n st
        → HasEntry input naming kind
            (record (st.planned) { builds = insert name id (st.planned.builds) })
            next
            n
    build_kept name next id x ready build_ids n h =
        HasEntry-insert input naming build_ids st.planned _ st.actions next name id n refl ready x h
    build_kept name next id x ready network_ids n h =
        HasEntry-kept input naming network_ids st.planned _ st.actions next n refl x h
    build_kept name next id x ready network_names n h =
        HasEntry-kept input naming network_names st.planned _ st.actions next n refl x h
    build_kept name next id x ready volume_ids n h =
        HasEntry-kept input naming volume_ids st.planned _ st.actions next n refl x h
    build_kept name next id x ready volume_names n h =
        HasEntry-kept input naming volume_names st.planned _ st.actions next n refl x h
    build_kept name next id x ready image_ids n h =
        HasEntry-kept input naming image_ids st.planned _ st.actions next n refl x h

    -- An action for a network, whichever it is.
    add_network-Step :
        (name runtime_name : Text) (action : PlanAction) (reason : ActionReason) (message : Text)
        → naming.network_name (network_of input naming name) ≡ NamingResult.ok runtime_name
        → ((next : Actions) (id : ActionId)
            → Does next id action
            → NetworkReady input naming next name id)
        → Yields IsUpError (Step input naming (PlansNetwork name) st) (
            add_resource input action reason message (note_network name runtime_name st.planned) st)
    add_network-Step name runtime_name action reason message named ready =
        add_resource-Step input naming st inv (PlansNetwork name) action reason message
          (note_network name runtime_name st.planned) (note_network-Noting st inv name runtime_name)
          (network-Keeping name runtime_name action named ready)
          (λ next id does. (
            HasEntry-new input naming network_ids st.planned _ next name id refl
                (ready next id does),
            HasEntry-new input naming network_names st.planned _ next name runtime_name refl named,
          ))

    add_volume-Step :
        (name runtime_name : Text) (action : PlanAction) (reason : ActionReason) (message : Text)
        → naming.volume_name (volume_of input naming name) ≡ NamingResult.ok runtime_name
        → ((next : Actions) (id : ActionId)
            → Does next id action
            → VolumeReady input naming next name id)
        → Yields IsUpError
            (Step input naming (PlansVolume name) st)
            (add_resource input action reason message (note_volume name runtime_name st.planned) st)
    add_volume-Step name runtime_name action reason message named ready =
        add_resource-Step input naming st inv (PlansVolume name) action reason message
          (note_volume name runtime_name st.planned) (note_volume-Noting st inv name runtime_name)
          (volume-Keeping name runtime_name action named ready)
          (λ next id does. (
            HasEntry-new input naming volume_ids st.planned _ next name id refl
                (ready next id does),
            HasEntry-new input naming volume_names st.planned _ next name runtime_name refl named,
          ))

    pub place_network-Step :
        (name runtime_name : Text)
        → naming.network_name (network_of input naming name) ≡ NamingResult.ok runtime_name
        → Yields IsUpError
            (Step input naming (PlansNetwork name) st)
            (place_network input (network_of input naming name) runtime_name st)
    unfolding place_network
    place_network-Step name runtime_name named =
        let observed = values input.snapshot.networks in
        elim (Bool-cases (network_exists_owned input.identity.working_set observed runtime_name)) [
          | inl exists ↦
              let (n, m, e, p) =
                network_exists_owned-member input.identity.working_set observed runtime_name
                  exists in
              rw (exists, place_network)
                (add_network-Step name runtime_name _ _ _ named
                  (λ next id does. NetworkReady.observed runtime_name n _ _ named m e p does))
          | inr missing ↦
              elim (Bool-cases
                (network_name_conflicts input.identity.working_set observed runtime_name)) [
                  | inl foreign ↦
                      rw (missing, foreign, place_network)
                        (yields (reported-Step input naming (PlansNetwork name) st _ refl inv))
                  | inr free ↦
                      rw (missing, free, place_network)
                        (add_network-Step name runtime_name _ _ _ named
                          (λ next id does. NetworkReady.created runtime_name named does))
                ]
        ]

    pub place_volume-Step :
        (name runtime_name : Text)
        → naming.volume_name (volume_of input naming name) ≡ NamingResult.ok runtime_name
        → Yields IsUpError
            (Step input naming (PlansVolume name) st)
            (place_volume input (volume_of input naming name) runtime_name st)
    unfolding place_volume
    place_volume-Step name runtime_name named =
        let observed = values input.snapshot.volumes in
        elim (Bool-cases (volume_exists_owned input.identity.working_set observed runtime_name)) [
          | inl exists ↦
              let (v, m, e, p) =
                volume_exists_owned-member input.identity.working_set observed runtime_name
                  exists in
              rw (exists, place_volume)
                (add_volume-Step name runtime_name _ _ _ named
                  (λ next id does. VolumeReady.observed runtime_name v _ _ named m e p does))
          | inr missing ↦
              elim (Bool-cases
                (volume_name_conflicts input.identity.working_set observed runtime_name)) [
                  | inl foreign ↦
                      rw (missing, foreign, place_volume)
                        (yields (reported-Step input naming (PlansVolume name) st _ refl inv))
                  | inr free ↦
                      rw (missing, free, place_volume)
                        (add_volume-Step name runtime_name _ _ _ named
                          (λ next id does. VolumeReady.created runtime_name named does))
                ]
        ]
