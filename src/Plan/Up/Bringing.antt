-- ===== src/Plan/Up/Bringing.antt =====
-- crates/susun-planner/src/up: the planned resources and the actions of a service bring it up.
use mathlib.Core.List.{Memᴰ}
use susun.Prelude.{[], ◌≡◌, refl, true, some, Text, list_eq, nat_eq, ◌⊎◌, inl, inr}
use susun.IndexMap.{contains, keys, values}
use susun.Engine.{ObservedImage}
use susun.Model.{ServiceName, Service, CanonicalVolume, VolumeKind, ImageRef, BuildDefinition}
use susun.Plan.{ActionId, pull_image}
use susun.Plan.Input.{PlanningInput, UpPlanOptions, Actions, BuildPolicy}
use susun.Plan.Naming.{NamingPolicy, NamingResult}
use susun.Plan.Up.Needs.{volume_sources}
use susun.Plan.Up.Resources.{ResourceState, builds_declared}
use susun.Plan.Up.Services.{create_action}
use susun.Plan.Up.Grown.{Does, DependsOn, Extends}
use susun.Plan.Up.Facts.{
  Noted, NetworkReady, VolumeReady, BuildReady, Ready, Ready-Extends, network_ids, volume_ids,
  build_ids, image_ids,
}
use susun.Plan.Up.Steps.{Has}
use susun.Plan.Up.Placed.{PlansVolume, PlansImage}
use susun.Plan.Up.Provided.{AllProvided}
use susun.Plan.Up.Required.{
  volume_sources-member, required_named_volumes-member, required_images-member, build-dependency,
  image-dependency, network-dependency, volume-dependency, add_networks-attached,
}
use susun.Plan.Up.Served.{IsSelected}
use susun.Plan.Up.Serving.{instance_of, start_id, IsServed}
use susun.Plan.Up.Brought.{BringsUp, runtime_volumes-MountsOf, is_waited, is_pulled}

module _ (input : PlanningInput) (options : UpPlanOptions) (naming : NamingPolicy)
    (from : ResourceState) (provided : AllProvided input naming options from) (actions : Actions)
    (extends : Extends from.actions actions) (s : ServiceName) (service : Service)
    (is : IsSelected input s service) (runtime_name : Text)
    (is_named : naming.container_name (instance_of input s) ≡ NamingResult.ok runtime_name)
    (P : ServiceName → Type 0)
    (served : IsServed input from.planned s service runtime_name P actions) where
  -- An entry still stands for what it did.
  later :
      (kind : Noted) (name : Text) (h : Has input naming kind name from)
      → Ready input naming kind actions name h.entry
  later kind name h =
      Ready-Extends input naming kind from.actions actions name h.entry extends h.ready

  planned_volume :
      (v : CanonicalVolume) (source : Text)
      → Memᴰ v service.volumes
      → v.kind ≡ VolumeKind.volume
      → v.source ≡ some source
      → (contains (volume_sources service.volumes) source ≡ true)
        × PlansVolume input naming source from
  planned_volume v source m k e =
      let member = volume_sources-member service.volumes v source m k e in
      (
        member,
        provided.volumes source
            (required_named_volumes-member input s service is.declared source is.active member),
      )

  waits_for_volume :
      (v : CanonicalVolume) (source : Text)
      → Memᴰ v service.volumes
      → v.kind ≡ VolumeKind.volume
      → v.source ≡ some source
      → (id : ActionId) × DependsOn actions served.create_id id
        × VolumeReady input naming actions source id
  waits_for_volume v source m k e =
      let (member, (h, _)) = planned_volume v source m k e in
      (
        h.entry,
        served.behind_resources h.entry
            (volume-dependency s service from.planned h.entry source member h.noted),
        later volume_ids source h,
      )

  waits_for_network :
      (n : Text)
      → contains (keys service.networks) n ≡ true
      → contains (keys input.project.networks) n ≡ true
      → (id : ActionId) × DependsOn actions served.create_id id
        × NetworkReady input naming actions n id
  waits_for_network n m declared =
      let h = (provided.networks n declared).0 in
      (
        h.entry,
        served.behind_resources h.entry
            (network-dependency s service from.planned h.entry n m h.noted),
        later network_ids n h,
      )

  waits_for_build :
      (build : BuildDefinition)
      → service.build ≡ some build
      → options.build_policy ≡ BuildPolicy.build_declared
      → (id : ActionId) × DependsOn actions served.create_id id
        × BuildReady input naming actions s id
  waits_for_build build e policy =
      let wanted : builds_declared options.build_policy ≡ true = rw policy refl in
      let h = provided.builds wanted s is.active service build is.declared e in
      (
        h.entry,
        served.behind_resources h.entry (build-dependency s service from.planned h.entry h.noted),
        later build_ids s h,
      )

  waits_for_image :
      (image : ImageRef)
      → service.image ≡ some image
      → PlansImage input naming image from
      → ((i : ObservedImage) × Memᴰ i (values input.snapshot.images)
          × (contains i.references image ≡ true))
        ⊎ ((id : ActionId) × DependsOn actions served.create_id id
            × Does actions id (pull_image image))
  waits_for_image image e (inl observed) = inl observed
  waits_for_image image e (inr h) = inr (
    h.entry,
    served.behind_resources h.entry
        (image-dependency s service from.planned h.entry image e h.noted),
    later image_ids image h,
  )

  pub service-BringsUp : BringsUp input options naming (start_id input) P s service actions
  service-BringsUp = record {
    create_id = served.create_id;
    container = create_action input from.planned (instance_of input s) service runtime_name;
    creates = served.creates;
    of_service = refl;
    named = is_named;
    configured = record {
      image = refl;
      command = refl;
      entrypoint = refl;
      environment = refl;
      labels = refl;
      ports = refl;
      healthcheck = refl;
      restart = refl;
    };
    mounts =
        runtime_volumes-MountsOf input options naming from.planned service.volumes
          (λ v m source k e.
            let (member, (_, h)) = planned_volume v source m k e in (h.entry, h.noted, h.ready));
    attached = λ n m declared.
        let h = (provided.networks n declared).1 in
        (
          h.entry,
          h.ready,
          add_networks-attached from.planned.network_names service.networks [] n h.entry m h.noted,
        );
    behind_networks = waits_for_network;
    behind_volumes = waits_for_volume;
    behind_image = λ image e policy. waits_for_image image e (
        provided.images (is_pulled input options naming options.image_policy policy) image
          (required_images-member input s service is.declared image is.active e));
    behind_build = waits_for_build;
    starts = served.starts;
    behind_create = served.behind_create;
    behind_starts = served.behind_starts;
    waits =
        λ d v e other p. served.waits d v e (is_waited input options naming v.condition other) p;
  }
