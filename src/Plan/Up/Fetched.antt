-- ===== src/Plan/Up/Fetched.antt =====
-- crates/susun-planner/src/up/resources.rs: the steps that build an image and that pull one.
use susun.Prelude.{
  ◌≡◌, arith, refl, some, none, [], ◌∷◌, text, list_eq, nat_eq, Bool-cases, Option-cases, inl, inr,
}
use susun.IndexMap.{get, values}
use susun.Engine.{new_instance}
use susun.Model.{ServiceName, ImageRef, Service, BuildDefinition}
use susun.Plan.{
  PlanActionNode, verify_build_inputs, build_image, build_inputs_require_verification,
  build_declared, safe, up,
}
use susun.Plan.Dag.{ok}
use susun.Plan.Input.{PlanningInput, UpPlanOptions, make_action_id, new_node}
use susun.Plan.Naming.{NamingPolicy}
use susun.Plan.Yields.{Yields, yields, Yields->>=, insert_action-Yields}
use susun.Plan.Ready.{no_dependency-IsReady, one_dependency-IsReady}
use susun.Plan.Up.Needs.{image_exists}
use susun.Plan.Up.Resources.{
  ResourceState, plan_build, plan_service_build, requires_present, plan_image,
}
use susun.Plan.Up.Grown.{Extends-trans, Inserted-Extends}
use susun.Plan.Up.Waits.{IsUpError, IsUpError-allowed}
use susun.Plan.Up.Noted.{ResourcesInv, note_image-Noting, note_build-Noting}
use susun.Plan.Up.Facts.{image_ids, build_ids, HasEntry-new, BuildReady, image_exists-member}
use susun.Plan.Up.Steps.{Step, same-Step, reported-Step, add_resource-Step}
use susun.Plan.Up.Grown.{Inserted-Does, Inserted-DependsOn}
use susun.Plan.Ready.{contains-one}
use susun.Plan.Up.Placed.{PlansImage, PlansBuild, image-Keeping, build_kept}

module _ (input : PlanningInput) (naming : NamingPolicy) where
  module _ (st : ResourceState) (inv : ResourcesInv st) where
    plan_build-Step :
        (name : ServiceName) (service : Service) (build : BuildDefinition)
        → get input.project.services name ≡ some service
        → service.build ≡ some build
        → Yields IsUpError
            (Step input naming (PlansBuild input naming name) st)
            (plan_build input name service.image build st)
    unfolding plan_build
    plan_build-Step name service build declared has_build =
        let identity = new_instance input.identity.working_set name 0 in
        let verify_id = make_action_id up input (verify_build_inputs identity) (text "0") in
        let verify : PlanActionNode =
          new_node verify_id (verify_build_inputs identity) [] build_inputs_require_verification
            (text "build inputs should be verified before execution") safe in
        let action = build_image identity build service.image in
        let building : PlanActionNode =
          new_node (make_action_id up input action (text "0")) action (verify_id ∷ [])
            build_declared (text "service declares a build definition") safe in
        Yields->>= _
          (insert_action-Yields IsUpError-allowed st.actions verify inv.built
            (no_dependency-IsReady st.actions verify refl))
          (λ verifying i.
            Yields->>= _
              (insert_action-Yields IsUpError-allowed verifying building i.built
                (one_dependency-IsReady verifying building verify_id refl i.added))
              (λ next j.
                let later = Inserted-Extends verifying building next j in
                let x =
                  Extends-trans st.actions verifying next
                    (Inserted-Extends st.actions verify verifying i) later in
                let ready : BuildReady input naming next name building.id = record {
                  service = service;
                  build = build;
                  declared = declared;
                  has_build = has_build;
                  builds = Inserted-Does verifying building next j;
                  verify_id = verify_id;
                  verifies = later.does _ _ (Inserted-Does st.actions verify verifying i);
                  behind =
                      Inserted-DependsOn verifying building next j verify_id
                        (contains-one verify_id);
                } in
                yields (record {
                  inv = record {
                    built = j.built;
                    provided = note_build-Noting st inv name next building.id x j.added;
                  };
                  clean_before = λ h. h;
                  kept =
                      λ k n h. build_kept input naming st inv name next building.id x ready k n h;
                  gives = λ clean other b d e.
                      HasEntry-new input naming build_ids st.planned _ next name building.id refl
                        ready;
                })))

    pub plan_image-Step :
        (options : UpPlanOptions) (image : ImageRef)
        → Yields IsUpError
            (Step input naming (PlansImage input naming image) st)
            (plan_image input options image st)
    unfolding plan_image
    plan_image-Step options image =
        elim (Bool-cases (image_exists (values input.snapshot.images) image)) [
          | inl exists ↦
              rw (exists, plan_image)
                (yields (
                  same-Step input naming (PlansImage input naming image) st inv
                    (inl (image_exists-member (values input.snapshot.images) image exists))))
          | inr missing ↦ elim (Bool-cases (requires_present options.image_policy)) [
            | inl present ↦
                rw (missing, present, plan_image)
                  (yields
                    (reported-Step input naming (PlansImage input naming image) st _ refl inv))
            | inr pulls ↦
                rw (missing, pulls, plan_image)
                  (add_resource-Step input naming st inv (PlansImage input naming image) _ _ _ _
                    (note_image-Noting st inv image) (image-Keeping input naming st inv image)
                    (λ next id does.
                      inr
                        (HasEntry-new input naming image_ids st.planned _ next image id refl does)))
          ]
        ]

    plan_service_build-Step :
        (name : ServiceName) (service : Service)
        → get input.project.services name ≡ some service
        → Yields IsUpError
            (Step input naming (PlansBuild input naming name) st)
            (plan_service_build input name service st)
    unfolding plan_service_build
    plan_service_build-Step name service declared = elim (Option-cases service.build) [
      | inl absent ↦
          rw (absent, plan_service_build)
            (yields (
              same-Step input naming (PlansBuild input naming name) st inv (λ other build d e.
                let same : service ≡ other = ground (arith, declared, d) in
                let has : service.build ≡ some build = rw (← same) at e in cc (absent, has))))
      | inr (build, found) ↦
          rw (found, plan_service_build) (plan_build-Step name service build declared found)
    ]

    pub one_build-Step :
        (name : ServiceName)
        → Yields IsUpError
            (Step input naming (PlansBuild input naming name) st)
            (elim (get input.project.services name) [
              | none ↦ ok st
              | some service ↦ plan_service_build input name service st
            ])
    one_build-Step name = elim (Option-cases (get input.project.services name)) [
      | inl absent ↦ rw absent (
          yields (
            same-Step input naming (PlansBuild input naming name) st inv
              (λ service build d e. cc (absent, d))))
      | inr (service, found) ↦ rw found (plan_service_build-Step name service found)
    ]
