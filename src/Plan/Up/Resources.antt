-- ===== src/Plan/Up/Resources.antt =====
-- crates/susun-planner/src/up/resources.rs: the networks, volumes, builds and images that the services need.
use susun.Prelude.{
  Bool, true, false, Option, none, some, List, [], ◌∷◌, ◌++◌, Text, text, list_eq, nat_eq,
  option_eq, if◌then◌else◌,
}
use susun.IndexMap.{IndexMap, get, insert, keys, values}
use susun.Diagnostics.{Diagnostic, error, new_diagnostic}
use susun.Diagnostics.Report
use susun.Diagnostics.Report.{DiagnosticReport}
use susun.Engine.{NetworkIdentity, VolumeIdentity, new_instance}
use susun.Model.{ServiceName, ImageRef, Service, BuildDefinition}
use susun.Plan.{
  ActionId, PlanAction, verify_build_inputs, build_image, pull_image, create_network, create_volume,
  no_op, up, ActionReason, resource_missing, image_unavailable_locally, build_declared,
  build_inputs_require_verification, existing_resource_accepted, safe, invariant_violation,
}
use susun.Plan.Dag.{PlanResult, ok, err, ◌>>=◌}
use susun.Plan.Input.{
  PlanningInput, UpPlanOptions, BuildPolicy, ImageAcquisitionPolicy, never_pull, require_present,
  make_action_id, new_node, Actions, insert_action,
}
use susun.Plan.Up.Needs.{
  network_exists_owned, network_name_conflicts, volume_exists_owned, volume_name_conflicts,
  required_named_volumes, required_images, image_exists,
}
use susun.Plan.Naming.{NamingPolicy, NamingResult, display_naming}

pub record UpResourceActions : Type 0 where
  pub networks : IndexMap Text ActionId
  pub network_names : IndexMap Text Text
  pub volumes : IndexMap Text ActionId
  pub volume_names : IndexMap Text Text
  pub images : IndexMap Text ActionId
  pub builds : IndexMap Text ActionId

-- `UpResourceActions::default`
abbrev pub no_resources : UpResourceActions
no_resources = record {
  networks = [];
  network_names = [];
  volumes = [];
  volume_names = [];
  images = [];
  builds = [];
}

-- What the loops fill.
pub record ResourceState : Type 0 where
  pub planned : UpResourceActions
  pub actions : Actions
  pub diagnostics : DiagnosticReport

-- `map_err(|err| PlanError::InvariantViolation { .. })`
abbrev pub named : {A : Type 0} → NamingResult A → PlanResult A
named (NamingResult.ok a) = ok a
named (NamingResult.err e) = err (invariant_violation (display_naming e))

-- `foreign_resource_diagnostic`
abbrev pub foreign_resource_diagnostic : (kind name : Text) → Diagnostic
foreign_resource_diagnostic kind name = new_diagnostic (text "SUS-PLAN-001") error (
    text "foreign " ++ (kind ++ (text " '" ++ (name ++ text "' occupies a required runtime name"))))

-- An action without dependencies, and what is noted of it.
unfoldable pub add_resource :
    PlanningInput
    → PlanAction
    → ActionReason
    → (message : Text) → (ActionId → UpResourceActions)
    → ResourceState
    → PlanResult ResourceState
add_resource input action reason message note st = do
  let id = make_action_id up input action (text "0")
  actions ← insert_action st.actions (new_node id action [] reason message safe)
  ok (record st { actions = actions; planned = note id })

abbrev pub note_network :
    Text → (runtime_name : Text) → UpResourceActions → ActionId → UpResourceActions
note_network name runtime_name planned id = record planned {
  network_names = insert name runtime_name planned.network_names;
  networks = insert name id planned.networks;
}

abbrev pub note_volume :
    Text → (runtime_name : Text) → UpResourceActions → ActionId → UpResourceActions
note_volume name runtime_name planned id = record planned {
  volume_names = insert name runtime_name planned.volume_names;
  volumes = insert name id planned.volumes;
}

-- The body of the loop over the networks, and the same with its runtime name.
unfoldable pub place_network :
    PlanningInput
    → NetworkIdentity
    → (runtime_name : Text) → ResourceState
    → PlanResult ResourceState
place_network input identity runtime_name st =
    let name = identity.network in
    let observed = values input.snapshot.networks in
    let exists =
      add_resource input
        (no_op (text "network:" ++ name)
          (text "network '" ++ (runtime_name ++ text "' already exists")))
        existing_resource_accepted (text "existing owned network accepted")
        (note_network name runtime_name st.planned) st in
    let create =
      add_resource input (create_network identity runtime_name) resource_missing
        (text "declared network is missing") (note_network name runtime_name st.planned) st in
    if network_exists_owned input.identity.working_set observed runtime_name
    then exists
    else if network_name_conflicts input.identity.working_set observed runtime_name
    then ok (record st {
      diagnostics =
          Report.push st.diagnostics (foreign_resource_diagnostic (text "network") runtime_name);
    })
    else create

unfoldable pub plan_network :
    PlanningInput → NamingPolicy → Text → ResourceState → PlanResult ResourceState
plan_network input naming name st = do
  let identity : NetworkIdentity = record { project = input.identity.working_set; network = name }
  runtime_name ← named (naming.network_name identity)
  place_network input identity runtime_name st

unfoldable pub plan_networks :
    PlanningInput → NamingPolicy → List Text → ResourceState → PlanResult ResourceState
plan_networks input naming [] st = ok st
plan_networks input naming (name ∷ names) st = do
  next ← plan_network input naming name st
  plan_networks input naming names next

unfoldable pub place_volume :
    PlanningInput
    → VolumeIdentity
    → (runtime_name : Text) → ResourceState
    → PlanResult ResourceState
place_volume input identity runtime_name st =
    let name = identity.volume in
    let observed = values input.snapshot.volumes in
    let exists =
      add_resource input
        (no_op (text "volume:" ++ name)
          (text "volume '" ++ (runtime_name ++ text "' already exists")))
        existing_resource_accepted (text "existing owned volume accepted")
        (note_volume name runtime_name st.planned) st in
    let create =
      add_resource input (create_volume identity runtime_name) resource_missing
        (text "named volume is missing") (note_volume name runtime_name st.planned) st in
    if volume_exists_owned input.identity.working_set observed runtime_name
    then exists
    else if volume_name_conflicts input.identity.working_set observed runtime_name
    then ok (record st {
      diagnostics =
          Report.push st.diagnostics (foreign_resource_diagnostic (text "volume") runtime_name);
    })
    else create

unfoldable pub plan_volume :
    PlanningInput → NamingPolicy → Text → ResourceState → PlanResult ResourceState
plan_volume input naming name st = do
  let identity : VolumeIdentity = record { project = input.identity.working_set; volume = name }
  runtime_name ← named (naming.volume_name identity)
  place_volume input identity runtime_name st

unfoldable pub plan_volumes :
    PlanningInput → NamingPolicy → List Text → ResourceState → PlanResult ResourceState
plan_volumes input naming [] st = ok st
plan_volumes input naming (name ∷ names) st = do
  next ← plan_volume input naming name st
  plan_volumes input naming names next

-- The body of the loop over the services that have a build.
unfoldable pub plan_build :
    PlanningInput
    → ServiceName
    → (image : Option ImageRef) → BuildDefinition
    → ResourceState
    → PlanResult ResourceState
plan_build input name image build st = do
  let identity = new_instance input.identity.working_set name 0
  let verify = verify_build_inputs identity
  let verify_id = make_action_id up input verify (text "0")
  verifying ← insert_action st.actions (
      new_node verify_id verify [] build_inputs_require_verification
        (text "build inputs should be verified before execution") safe)
  let action = build_image identity build image
  let build_id = make_action_id up input action (text "0")
  building ← insert_action verifying (
      new_node build_id action (verify_id ∷ []) build_declared
        (text "service declares a build definition") safe)
  ok (record st {
    actions = building;
    planned = record (st.planned) { builds = insert name build_id (st.planned.builds) };
  })

unfoldable pub plan_service_build :
    PlanningInput → ServiceName → Service → ResourceState → PlanResult ResourceState
plan_service_build input name service st = elim service.build [
  | none ↦ ok st
  | some build ↦ plan_build input name service.image build st
]

unfoldable pub plan_builds :
    PlanningInput → List ServiceName → ResourceState → PlanResult ResourceState
plan_builds input [] st = ok st
plan_builds input (name ∷ names) st = do
  next ← (elim (get input.project.services name) [
    | none ↦ ok st
    | some service ↦ plan_service_build input name service st
  ])
  plan_builds input names next

abbrev pub requires_present : ImageAcquisitionPolicy → Bool
requires_present require_present = true
requires_present _ = false

-- The body of the loop over the images.
unfoldable pub plan_image :
    PlanningInput → UpPlanOptions → ImageRef → ResourceState → PlanResult ResourceState
plan_image input options image st =
    let pull =
      add_resource input (pull_image image) image_unavailable_locally
        (text "image is not present in the engine snapshot")
        (λ id. record (st.planned) { images = insert image id (st.planned.images) }) st in
    if image_exists (values input.snapshot.images) image
    then ok st
    else if requires_present options.image_policy
    then ok (record st {
      diagnostics = Report.push st.diagnostics (
          new_diagnostic (text "SUS-PLAN-003") error
            (text "required image '" ++ (image ++ text "' is missing")));
    })
    else pull

unfoldable pub plan_images :
    PlanningInput → UpPlanOptions → List ImageRef → ResourceState → PlanResult ResourceState
plan_images input options [] st = ok st
plan_images input options (image ∷ images) st = do
  next ← plan_image input options image st
  plan_images input options images next

abbrev pub builds_declared : BuildPolicy → Bool
builds_declared BuildPolicy.build_declared = true
builds_declared BuildPolicy.never_build = false

abbrev pub never_pulls : ImageAcquisitionPolicy → Bool
never_pulls never_pull = true
never_pulls _ = false

-- `if options.image_policy != ImageAcquisitionPolicy::NeverPull`
unfoldable pub wanted_images :
    PlanningInput → UpPlanOptions → ResourceState → PlanResult ResourceState
wanted_images input options st =
    if never_pulls options.image_policy
    then ok st
    else plan_images input options (required_images input) st

-- `plan_prerequisite_resources`
unfoldable pub plan_prerequisite_resources :
    PlanningInput → UpPlanOptions → NamingPolicy → ResourceState → PlanResult ResourceState
plan_prerequisite_resources input options naming st = do
  networks ← plan_networks input naming (keys input.project.networks) st
  volumes ← plan_volumes input naming (required_named_volumes input) networks
  builds ←
      (if builds_declared options.build_policy
        then plan_builds input input.selection.active_services volumes
        else ok volumes)
  wanted_images input options builds
