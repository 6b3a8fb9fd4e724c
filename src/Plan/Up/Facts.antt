-- ===== src/Plan/Up/Facts.antt =====
-- crates/susun-planner/src/up/resources.rs: what it means that a network, a volume, a build or an image is planned.
use mathlib.Core.List.{Memᴰ}
use mathlib.Core.List.Memᴰ.{head, tail}
use susun.Prelude.{
  ◌≡◌, refl, ◌∙◌, ap, true, ◌&&◌, some, List, [], ◌∷◌, inl, inr, Text, arith, list_eq, nat_eq,
  option_eq, ◌=?◌, list_beq_iff, option_beq_iff, =?_refl, Bool-cases,
}
use susun.IndexMap.{IndexMap, contains, get, insert, get-insert, values}
use susun.Engine.{
  ProjectInstanceId, ObservedNetwork, ObservedVolume, ObservedImage, NetworkIdentity,
  VolumeIdentity, new_instance,
}
use susun.Model.{Service, BuildDefinition, ImageRef}
use susun.Plan.{
  ActionId, create_network, create_volume, pull_image, build_image, verify_build_inputs, no_op,
}
use susun.Plan.Input.{PlanningInput, Actions}
use susun.Plan.Naming.{NamingPolicy, NamingResult}
use susun.Plan.Up.Needs.{network_exists_owned, volume_exists_owned, image_exists}
use susun.Plan.Up.Resources.{UpResourceActions}
use susun.Plan.Up.Grown.{Does, DependsOn, Extends}

-- The maps that the planning of resources fills.
pub data Noted : Type 0 where
  network_ids network_names volume_ids volume_names image_ids build_ids : Noted

abbrev pub map_of : Noted → UpResourceActions → IndexMap Text Text
map_of network_ids planned = planned.networks
map_of network_names planned = planned.network_names
map_of volume_ids planned = planned.volumes
map_of volume_names planned = planned.volume_names
map_of image_ids planned = planned.images
map_of build_ids planned = planned.builds

module _ (input : PlanningInput) (naming : NamingPolicy) where
  abbrev pub network_of : Text → NetworkIdentity
  network_of name = record { project = input.identity.working_set; network = name }

  abbrev pub volume_of : Text → VolumeIdentity
  volume_of name = record { project = input.identity.working_set; volume = name }

  -- The action creates the network under the name that the policy gives, or notes that the snapshot has a
  -- network of this name that belongs to the project.
  pub data NetworkReady (actions : Actions) (name : Text) (id : ActionId) : Type 0 where
    created :
        (runtime_name : Text)
        → naming.network_name (network_of name) ≡ NamingResult.ok runtime_name
        → Does actions id (create_network (network_of name) runtime_name)
        → NetworkReady actions name id
    observed :
        (runtime_name : Text) (n : ObservedNetwork) (resource description : Text)
        → naming.network_name (network_of name) ≡ NamingResult.ok runtime_name
        → Memᴰ n (values input.snapshot.networks)
        → n.name ≡ runtime_name
        → n.project_identity ≡ some input.identity.working_set
        → Does actions id (no_op resource description)
        → NetworkReady actions name id

  -- The same for a volume.
  pub data VolumeReady (actions : Actions) (name : Text) (id : ActionId) : Type 0 where
    created :
        (runtime_name : Text)
        → naming.volume_name (volume_of name) ≡ NamingResult.ok runtime_name
        → Does actions id (create_volume (volume_of name) runtime_name)
        → VolumeReady actions name id
    observed :
        (runtime_name : Text) (v : ObservedVolume) (resource description : Text)
        → naming.volume_name (volume_of name) ≡ NamingResult.ok runtime_name
        → Memᴰ v (values input.snapshot.volumes)
        → v.name ≡ runtime_name
        → v.project_identity ≡ some input.identity.working_set
        → Does actions id (no_op resource description)
        → VolumeReady actions name id

  -- The action builds what the service declares, behind the verification of its inputs.
  pub record BuildReady (actions : Actions) (name : Text) (id : ActionId) : Type 0 where
    pub service : Service
    pub build : BuildDefinition
    pub declared : get input.project.services name ≡ some service
    pub has_build : service.build ≡ some build
    pub builds :
        Does actions id
          (build_image (new_instance input.identity.working_set name 0) build service.image)
    pub verify_id : ActionId
    pub verifies :
        Does actions verify_id
          (verify_build_inputs (new_instance input.identity.working_set name 0))
    pub behind : DependsOn actions id verify_id

  -- What an entry of a map stands for: the id of an action, or a name.
  abbrev pub Ready : Noted → Actions → (name entry : Text) → Type 0
  Ready network_ids actions name id = NetworkReady actions name id
  Ready network_names actions name runtime_name =
      naming.network_name (network_of name) ≡ NamingResult.ok runtime_name
  Ready volume_ids actions name id = VolumeReady actions name id
  Ready volume_names actions name runtime_name =
      naming.volume_name (volume_of name) ≡ NamingResult.ok runtime_name
  Ready image_ids actions image id = Does actions id (pull_image image)
  Ready build_ids actions name id = BuildReady actions name id

  pub Ready-Extends :
      (kind : Noted) (actions next : Actions) (name entry : Text)
      → Extends actions next
      → Ready kind actions name entry
      → Ready kind next name entry
  Ready-Extends network_ids actions next name id x (created rn h d) = created rn h (x.does _ _ d)
  Ready-Extends network_ids actions next name id x (observed rn n a b h m e p d) =
      observed rn n a b h m e p (x.does _ _ d)
  Ready-Extends network_names actions next name rn x h = h
  Ready-Extends volume_ids actions next name id x (created rn h d) = created rn h (x.does _ _ d)
  Ready-Extends volume_ids actions next name id x (observed rn v a b h m e p d) =
      observed rn v a b h m e p (x.does _ _ d)
  Ready-Extends volume_names actions next name rn x h = h
  Ready-Extends image_ids actions next image id x d = x.does _ _ d
  Ready-Extends build_ids actions next name id x b = record {
    service = b.service;
    build = b.build;
    declared = b.declared;
    has_build = b.has_build;
    builds = x.does _ _ b.builds;
    verify_id = b.verify_id;
    verifies = x.does _ _ b.verifies;
    behind = x.depends _ _ b.behind;
  }

  -- The map has an entry for the name.
  pub record HasEntry (kind : Noted) (planned : UpResourceActions) (actions : Actions) (name : Text)
      : Type 0 where
    pub entry : Text
    pub noted : get (map_of kind planned) name ≡ some entry
    pub ready : Ready kind actions name entry

  pub HasEntry-kept :
      (kind : Noted) (planned later : UpResourceActions) (actions next : Actions) (name : Text)
      → map_of kind later ≡ map_of kind planned
      → Extends actions next
      → HasEntry kind planned actions name
      → HasEntry kind later next name
  HasEntry-kept kind planned later actions next name e x p = record {
    entry = p.entry;
    noted = ap (λ (m : IndexMap Text Text). get m name) e ∙ p.noted;
    ready = Ready-Extends kind actions next name p.entry x p.ready;
  }

  pub HasEntry-new :
      (kind : Noted) (planned later : UpResourceActions) (next : Actions) (name entry : Text)
      → map_of kind later ≡ insert name entry (map_of kind planned)
      → Ready kind next name entry
      → HasEntry kind later next name
  HasEntry-new kind planned later next name entry e ready = record {
    entry = entry;
    noted =
        ap (λ (m : IndexMap Text Text). get m name) e
        ∙ ground (arith, get-insert (map_of kind planned) name name entry, =?_refl name);
    ready = ready;
  }

  pub HasEntry-insert :
      (kind : Noted) (planned later : UpResourceActions) (actions next : Actions)
      (new entry name : Text)
      → map_of kind later ≡ insert new entry (map_of kind planned)
      → Ready kind next new entry
      → Extends actions next
      → HasEntry kind planned actions name
      → HasEntry kind later next name
  HasEntry-insert kind planned later actions next new entry name e ready x p =
      elim (Bool-cases (new =? name)) [
        | inl same ↦
            let eq = (list_beq_iff new name).0 same in
            rw (← eq) (HasEntry-new kind planned later next new entry e ready)
        | inr other ↦ record {
          entry = p.entry;
          noted =
              ap (λ (m : IndexMap Text Text). get m name) e
              ∙ ground (arith, get-insert (map_of kind planned) new name entry, other, p.noted);
          ready = Ready-Extends kind actions next name p.entry x p.ready;
        }
      ]

-- The tests on the snapshot, as members of it.
pub network_exists_owned-member :
    (project : ProjectInstanceId) (networks : List ObservedNetwork) (name : Text)
    → network_exists_owned project networks name ≡ true
    → (n : ObservedNetwork) × Memᴰ n networks
      × (n.name ≡ name)
      × (n.project_identity ≡ some project)
unfolding network_exists_owned
network_exists_owned-member project [] name h = cc
network_exists_owned-member project (n ∷ networks) name h =
    elim (Bool-cases (n.name =? name && (n.project_identity =? some project))) [
      | inl here ↦ (
        n,
        head refl,
        (list_beq_iff n.name name).0 (ground (arith, here)),
        (option_beq_iff n.project_identity (some project)).0 (ground (arith, here)),
      )
      | inr other ↦
          let (m, i, e, p) =
            network_exists_owned-member project networks name (ground (arith, h, other)) in
          (m, tail i, e, p)
    ]

pub volume_exists_owned-member :
    (project : ProjectInstanceId) (volumes : List ObservedVolume) (name : Text)
    → volume_exists_owned project volumes name ≡ true
    → (v : ObservedVolume) × Memᴰ v volumes × (v.name ≡ name) × (v.project_identity ≡ some project)
unfolding volume_exists_owned
volume_exists_owned-member project [] name h = cc
volume_exists_owned-member project (v ∷ volumes) name h =
    elim (Bool-cases (v.name =? name && (v.project_identity =? some project))) [
      | inl here ↦ (
        v,
        head refl,
        (list_beq_iff v.name name).0 (ground (arith, here)),
        (option_beq_iff v.project_identity (some project)).0 (ground (arith, here)),
      )
      | inr other ↦
          let (m, i, e, p) =
            volume_exists_owned-member project volumes name (ground (arith, h, other)) in
          (m, tail i, e, p)
    ]

pub image_exists-member :
    (images : List ObservedImage) (image : ImageRef)
    → image_exists images image ≡ true
    → (i : ObservedImage) × Memᴰ i images × (contains i.references image ≡ true)
unfolding image_exists
image_exists-member [] image h = cc
image_exists-member (i ∷ images) image h = elim (Bool-cases (contains i.references image)) [
  | inl here ↦ (i, head refl, here)
  | inr other ↦
      let (m, j, e) = image_exists-member images image (ground (arith, h, other)) in (m, tail j, e)
]
