-- ===== src/Plan/Up/Noted.antt =====
-- crates/susun-planner/src/up/resources.rs: the ids that are noted for resources are those of actions.
use susun.Prelude.{◌≡◌, true, Text, list_eq, nat_eq}
use susun.IndexMap.{contains, keys, insert}
use susun.Model.{ServiceName, ImageRef}
use susun.Plan.{ActionId}
use susun.Plan.Input.{Actions}
use susun.Plan.Built.{IsBuilt}
use susun.Plan.Up.Resources.{UpResourceActions, ResourceState, note_network, note_volume}
use susun.Plan.Up.Grown.{Extends}
use susun.Plan.Up.Found.{AllKnown-insert, AllKnown-Extends, AreProvided}

pub record ResourcesInv (st : ResourceState) : Type 0 where
  pub built : IsBuilt st.actions
  pub provided : AreProvided st.planned st.actions

-- The ids that are noted are those of actions, once the new one is there.
abbrev pub Noting : ResourceState → (ActionId → UpResourceActions) → Type 0
Noting st note =
    (next : Actions) (id : ActionId)
    → Extends st.actions next
    → contains (keys next) id ≡ true
    → AreProvided (note id) next

module _ (st : ResourceState) (inv : ResourcesInv st) where
  pub note_network-Noting :
      (name runtime_name : Text) → Noting st (note_network name runtime_name st.planned)
  note_network-Noting name runtime_name next id x there = record {
    networks =
        AllKnown-insert st.planned.networks name id next
          (AllKnown-Extends st.planned.networks st.actions next x inv.provided.networks) there;
    volumes = AllKnown-Extends st.planned.volumes st.actions next x inv.provided.volumes;
    images = AllKnown-Extends st.planned.images st.actions next x inv.provided.images;
    builds = AllKnown-Extends st.planned.builds st.actions next x inv.provided.builds;
  }

  pub note_volume-Noting :
      (name runtime_name : Text) → Noting st (note_volume name runtime_name st.planned)
  note_volume-Noting name runtime_name next id x there = record {
    networks = AllKnown-Extends st.planned.networks st.actions next x inv.provided.networks;
    volumes =
        AllKnown-insert st.planned.volumes name id next
          (AllKnown-Extends st.planned.volumes st.actions next x inv.provided.volumes) there;
    images = AllKnown-Extends st.planned.images st.actions next x inv.provided.images;
    builds = AllKnown-Extends st.planned.builds st.actions next x inv.provided.builds;
  }

  pub note_image-Noting :
      (image : ImageRef)
      → Noting st (λ id. record (st.planned) { images = insert image id (st.planned.images) })
  note_image-Noting image next id x there = record {
    networks = AllKnown-Extends st.planned.networks st.actions next x inv.provided.networks;
    volumes = AllKnown-Extends st.planned.volumes st.actions next x inv.provided.volumes;
    images =
        AllKnown-insert st.planned.images image id next
          (AllKnown-Extends st.planned.images st.actions next x inv.provided.images) there;
    builds = AllKnown-Extends st.planned.builds st.actions next x inv.provided.builds;
  }

  pub note_build-Noting :
      (name : ServiceName)
      → Noting st (λ id. record (st.planned) { builds = insert name id (st.planned.builds) })
  note_build-Noting name next id x there = record {
    networks = AllKnown-Extends st.planned.networks st.actions next x inv.provided.networks;
    volumes = AllKnown-Extends st.planned.volumes st.actions next x inv.provided.volumes;
    images = AllKnown-Extends st.planned.images st.actions next x inv.provided.images;
    builds =
        AllKnown-insert st.planned.builds name id next
          (AllKnown-Extends st.planned.builds st.actions next x inv.provided.builds) there;
  }
