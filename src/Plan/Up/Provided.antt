-- ===== src/Plan/Up/Provided.antt =====
-- crates/susun-planner/src/up/resources.rs: everything that the services need is planned, before the services.
use susun.Prelude.{
  ◌≡◌, true, false, if◌then◌else◌, List, [], ◌∷◌, Text, list_eq, nat_eq, Bool-cases, inl, inr,
  if◌then◌else◌,
}
use susun.IndexMap.{contains, keys}
use susun.Model.{ServiceName, ImageRef}
use susun.Plan.Dag.{ok}
use susun.Plan.Input.{PlanningInput, UpPlanOptions}
use susun.Plan.Naming.{NamingPolicy}
use susun.Plan.Yields.{Yields, yields, Yields->>=, Yields-map}
use susun.Plan.Up.Needs.{required_images, required_named_volumes}
use susun.Plan.Up.Resources.{
  ResourceState, plan_network, plan_networks, plan_volume, plan_volumes, plan_builds, plan_images,
  builds_declared, never_pulls, wanted_images, plan_prerequisite_resources,
}
use susun.Plan.Up.Waits.{IsUpError, named-Yields}
use susun.Plan.Up.Noted.{ResourcesInv}
use susun.Plan.Up.Facts.{
  Noted, network_ids, network_names, volume_ids, volume_names, image_ids, build_ids, network_of,
  volume_of,
}
use susun.Plan.Up.Steps.{Has, Step, same-Step, list-Step, stage-Step}
use susun.Plan.Up.Placed.{
  PlansNetwork, PlansVolume, PlansImage, PlansBuild, place_network-Step, place_volume-Step,
}
use susun.Plan.Up.Fetched.{plan_image-Step, one_build-Step}

module _ (input : PlanningInput) (naming : NamingPolicy) where
  -- All names of a list are planned.
  abbrev All : (P : Text → ResourceState → Type 0) → List Text → ResourceState → Type 0
  All P names s = (n : Text) → contains names n ≡ true → P n s

  plan_networks-Step :
      (names : List Text) (st : ResourceState)
      → ResourcesInv st
      → Yields IsUpError
          (Step input naming (All (PlansNetwork input naming) names) st)
          (plan_networks input naming names st)
  unfolding plan_networks plan_network contains
  plan_networks-Step [] st inv = yields (same-Step input naming _ st inv (λ n m. cc))
  plan_networks-Step (name ∷ names) st inv =
      list-Step input naming (PlansNetwork input naming) st name names _ _
        (λ n a b k (x, y). (k network_ids x, k network_names y))
        (Yields->>= _ (named-Yields (naming.network_name (network_of input naming name)))
          (λ runtime_name named. place_network-Step input naming st inv name runtime_name named))
        (λ next n. plan_networks-Step names next n)

  plan_volumes-Step :
      (names : List Text) (st : ResourceState)
      → ResourcesInv st
      → Yields IsUpError
          (Step input naming (All (PlansVolume input naming) names) st)
          (plan_volumes input naming names st)
  unfolding plan_volumes plan_volume contains
  plan_volumes-Step [] st inv = yields (same-Step input naming _ st inv (λ n m. cc))
  plan_volumes-Step (name ∷ names) st inv =
      list-Step input naming (PlansVolume input naming) st name names _ _
        (λ n a b k (x, y). (k volume_ids x, k volume_names y))
        (Yields->>= _ (named-Yields (naming.volume_name (volume_of input naming name)))
          (λ runtime_name named. place_volume-Step input naming st inv name runtime_name named))
        (λ next n. plan_volumes-Step names next n)

  plan_builds-Step :
      (names : List ServiceName) (st : ResourceState)
      → ResourcesInv st
      → Yields IsUpError
          (Step input naming (All (PlansBuild input naming) names) st)
          (plan_builds input names st)
  unfolding plan_builds contains
  plan_builds-Step [] st inv = yields (same-Step input naming _ st inv (λ n m. cc))
  plan_builds-Step (name ∷ names) st inv =
      list-Step input naming (PlansBuild input naming) st name names _ _
        (λ n a b k p service build d e. k build_ids (p service build d e))
        (one_build-Step input naming st inv name) (λ next n. plan_builds-Step names next n)

  module _ (options : UpPlanOptions) where
    plan_images-Step :
        (images : List ImageRef) (st : ResourceState)
        → ResourcesInv st
        → Yields IsUpError
            (Step input naming (All (PlansImage input naming) images) st)
            (plan_images input options images st)
    unfolding plan_images contains
    plan_images-Step [] st inv = yields (same-Step input naming _ st inv (λ n m. cc))
    plan_images-Step (image ∷ images) st inv =
        list-Step input naming (PlansImage input naming) st image images _ _ image_kept
          (plan_image-Step input naming st inv options image)
          (λ next n. plan_images-Step images next n)
      where
        image_kept :
            (n : ImageRef) (a b : ResourceState)
            → ((kind : Noted) → Has input naming kind n a → Has input naming kind n b)
            → PlansImage input naming n a
            → PlansImage input naming n b
        image_kept n a b k (inl observed) = inl observed
        image_kept n a b k (inr pulled) = inr (k image_ids pulled)

    -- What is planned for the services.
    pub record AllProvided (s : ResourceState) : Type 0 where
      pub networks : All (PlansNetwork input naming) (keys input.project.networks) s
      pub volumes : All (PlansVolume input naming) (required_named_volumes input) s
      pub builds :
          builds_declared options.build_policy ≡ true
          → All (PlansBuild input naming) input.selection.active_services s
      pub images :
          never_pulls options.image_policy ≡ false
          → All (PlansImage input naming) (required_images input) s

    plan_prerequisite_builds-Step :
        (st : ResourceState)
        → ResourcesInv st
        → Yields IsUpError
            (Step input naming
              (λ s.
                builds_declared options.build_policy ≡ true
                → All (PlansBuild input naming) input.selection.active_services s)
              st)
            (if builds_declared options.build_policy
              then plan_builds input input.selection.active_services st
              else ok st)
    plan_prerequisite_builds-Step st inv =
        elim (Bool-cases (builds_declared options.build_policy)) [
          | inl wanted ↦ rw wanted (
              Yields-map (plan_builds-Step input.selection.active_services st inv) (λ next s.
                record {
                  inv = s.inv;
                  clean_before = s.clean_before;
                  kept = s.kept;
                  gives = λ clean _. s.gives clean;
                }))
          | inr never ↦ rw never (yields (same-Step input naming _ st inv (λ h. cc)))
        ]

    wanted_images-Step :
        (st : ResourceState)
        → ResourcesInv st
        → Yields IsUpError
            (Step input naming
              (λ s.
                never_pulls options.image_policy ≡ false
                → All (PlansImage input naming) (required_images input) s)
              st)
            (wanted_images input options st)
    unfolding wanted_images
    wanted_images-Step st inv = elim (Bool-cases (never_pulls options.image_policy)) [
      | inl never ↦ rw (never, wanted_images) (yields (same-Step input naming _ st inv (λ h. cc)))
      | inr pulls ↦
          rw (pulls, wanted_images)
            (Yields-map (plan_images-Step (required_images input) st inv) (λ next s. record {
              inv = s.inv;
              clean_before = s.clean_before;
              kept = s.kept;
              gives = λ clean _. s.gives clean;
            }))
    ]

    pub plan_prerequisite_resources-Step :
        (st : ResourceState)
        → ResourcesInv st
        → Yields IsUpError
            (Step input naming AllProvided st)
            (plan_prerequisite_resources input options naming st)
    unfolding plan_prerequisite_resources
    plan_prerequisite_resources-Step st inv =
        Yields-map
          (stage-Step input naming _ _ st _ _
            (λ a b k p n m. (k network_ids n (p n m).0, k network_names n (p n m).1))
            (plan_networks-Step (keys input.project.networks) st inv)
            (λ networks n.
              stage-Step input naming _ _ networks _ _
                (λ a b k p v m. (k volume_ids v (p v m).0, k volume_names v (p v m).1))
                (plan_volumes-Step (required_named_volumes input) networks n)
                (λ volumes v.
                  stage-Step input naming _ _ volumes _ _
                    (λ a b k p w s m service build d e. k build_ids s (p w s m service build d e))
                    (plan_prerequisite_builds-Step volumes v)
                    (λ built b. wanted_images-Step built b))))
          (λ next s. record {
            inv = s.inv;
            clean_before = s.clean_before;
            kept = s.kept;
            gives = λ clean.
                let (networks, (volumes, (builds, images))) = s.gives clean in
                record { networks = networks; volumes = volumes; builds = builds; images = images };
          })
