-- ===== src/Plan/Input.antt =====
-- crates/susun-planner: what the planners take and return (src/input.rs, src/options.rs), and how they put an
-- action into a plan. The provenance of the input is read by nothing that is modelled.
use susun.Prelude.{
  ℕ, Bool, false, Option, none, some, List, [], ◌∷◌, ◌++◌, Text, text, list_eq, nat_eq,
  if◌then◌else◌, decimal,
}
use susun.IndexMap.{IndexMap, insert, keys, contains_key}
use susun.Diagnostics.Report.{DiagnosticReport}
use susun.Engine.{ProjectIdentity, EngineSnapshot, ServiceInstanceId, new_instance}
use susun.Engine.Capabilities.{EngineCapabilities}
use susun.Graph.{DependencyGraph}
use susun.Model.{Project, ServiceName}
use susun.Selection.{ProjectSelection}
use susun.Plan.{
  ActionId, PlannedOperation, PlanAction, verify_build_inputs, build_image, pull_image,
  create_network, create_volume, create_container, start_container, wait_for_dependency,
  stop_container, remove_container, remove_network, remove_volume, rename_container,
  recreate_container, preserve_volume, verify_replacement, remove_orphan, scale_up_replica,
  scale_down_replica, no_op, PlanActionNode, ActionReason, ActionSafety, kind, from_actions,
  action_id_collision,
}
use susun.Diagnostics.Report
use susun.Plan.Dag.{PlanResult, ok, err, ◌>>=◌, validate_action_dag}
use susun.Plan.Execution.{ExecutionPlan, PlanId, PlanSchemaVersion, current_schema, operation_name}
use susun.Plan.Id.{fnv_offset, add_parts, hex_onto, action_id_from_parts, plan_id_from_parts}

pub record PlanningInput : Type 0 where
  pub project : Project
  pub selection : ProjectSelection
  pub graph : DependencyGraph
  pub identity : ProjectIdentity
  pub capabilities : EngineCapabilities
  pub snapshot : EngineSnapshot

pub record PlanOutcome : Type 0 where
  pub plan : Option ExecutionPlan
  pub diagnostics : DiagnosticReport

-- `PlanOutcome::planned`
abbrev pub planned : ExecutionPlan → DiagnosticReport → PlanOutcome
planned plan diagnostics = record { plan = some plan; diagnostics = diagnostics }

-- `PlanOutcome::blocked`
abbrev pub blocked : DiagnosticReport → PlanOutcome
blocked diagnostics = record { plan = none; diagnostics = diagnostics }

pub data ImageAcquisitionPolicy : Type 0 where
  pull_if_missing never_pull require_present : ImageAcquisitionPolicy

pub data BuildPolicy : Type 0 where
  never_build build_declared : BuildPolicy

pub data ExistingResourcePolicy : Type 0 where
  accept_owned refuse_existing : ExistingResourcePolicy

pub data DependencyWaitPolicy : Type 0 where
  emit_supported refuse_waits degrade_to_start_order : DependencyWaitPolicy

pub record UpPlanOptions : Type 0 where
  pub image_policy : ImageAcquisitionPolicy
  pub build_policy : BuildPolicy
  pub existing_resource_policy : ExistingResourcePolicy
  pub dependency_wait_policy : DependencyWaitPolicy

-- `UpPlanOptions::default`
abbrev pub default_up : UpPlanOptions
default_up = record {
  image_policy = pull_if_missing;
  build_policy = never_build;
  existing_resource_policy = accept_owned;
  dependency_wait_policy = emit_supported;
}

-- The timeout is a number of seconds.
pub record DownPlanOptions : Type 0 where
  pub remove_volumes : Bool
  pub remove_orphans : Bool
  pub timeout : ℕ

-- `DownPlanOptions::default`
abbrev pub default_down : DownPlanOptions
default_down = record { remove_volumes = false; remove_orphans = false; timeout = 10 }

-- `PlanAction::resource_key`
unfoldable pub resource_key : PlanAction → Text
resource_key (verify_build_inputs identity) = text "build:" ++ identity.service
resource_key (build_image identity build image) = text "build:" ++ identity.service
resource_key (pull_image image) = text "image:" ++ image
resource_key (create_network identity name) = text "network:" ++ identity.network
resource_key (create_volume identity name) = text "volume:" ++ identity.volume
resource_key (create_container action) = text "service:" ++ action.identity.service
resource_key (start_container identity) = text "service:" ++ identity.service
resource_key (wait_for_dependency dependent dependency condition) =
    text "dependency:" ++ dependent.service
resource_key (stop_container identity) = text "service:" ++ identity.service
resource_key (remove_container identity) = text "service:" ++ identity.service
resource_key (remove_network identity) = text "network:" ++ identity.network
resource_key (remove_volume identity) = text "volume:" ++ identity.volume
resource_key (rename_container identity from to) = text "service:" ++ identity.service
resource_key (recreate_container identity strategy) = text "service:" ++ identity.service
resource_key (preserve_volume identity reason) = text "volume:" ++ identity.volume
resource_key (verify_replacement identity) = text "service:" ++ identity.service
resource_key (remove_orphan resource orphan_kind) = resource
resource_key (scale_up_replica identity) = text "service:" ++ identity.service
resource_key (scale_down_replica identity) = text "service:" ++ identity.service
resource_key (no_op resource description) = resource

-- `make_action_id` and `make_down_action_id`
unfoldable pub make_action_id :
    PlannedOperation → PlanningInput → PlanAction → (discriminator : Text) → ActionId
unfolding action_id_from_parts resource_key
make_action_id operation input action discriminator = action_id_from_parts (
    text "1"
    ∷ input.identity.working_set
    ∷ operation_name operation
    ∷ resource_key action
    ∷ kind action
    ∷ discriminator
    ∷ [])

abbrev pub new_node :
    ActionId
    → PlanAction
    → (dependencies : List ActionId) → ActionReason
    → (message : Text) → ActionSafety
    → PlanActionNode
new_node id action dependencies reason message safety = record {
  id = id;
  action = action;
  dependencies = dependencies;
  reason = record { code = reason; message = message };
  safety = safety;
}

abbrev pub Actions : Type 0
Actions = IndexMap ActionId PlanActionNode

-- `insert_action`: the actions are dropped with an error.
unfoldable pub insert_action : Actions → PlanActionNode → PlanResult Actions
unfolding insert contains_key
insert_action actions node =
    if contains_key actions node.id
    then err (action_id_collision node.id)
    else ok (insert node.id node actions)

-- `stable_plan_id`
unfoldable pub stable_plan_id :
    PlanSchemaVersion → ProjectIdentity → PlannedOperation → Actions → PlanId
unfolding add_parts hex_onto plan_id_from_parts keys decimal
stable_plan_id schema project operation actions = plan_id_from_parts (
    hex_onto 16
      (add_parts fnv_offset (
        decimal schema.major
        ∷ decimal schema.minor
        ∷ project.working_set
        ∷ operation_name operation
        ∷ keys actions))
      []
    ∷ [])

-- `ExecutionPlan::new`
unfoldable pub new_plan :
    ProjectIdentity → PlannedOperation → Actions → DiagnosticReport → ExecutionPlan
unfolding stable_plan_id from_actions
new_plan project operation actions diagnostics = record {
  schema_version = current_schema;
  plan_id = stable_plan_id current_schema project operation actions;
  project = project;
  operation = operation;
  created_at = none;
  actions = actions;
  summary = from_actions actions;
  diagnostics = diagnostics;
}

-- `service_identity_for`
abbrev pub service_identity_for : (project : Text) → ServiceName → ServiceInstanceId
service_identity_for project service = new_instance project service 0

-- The validation of the actions, and the plan; `none` stands for a loop that does not end.
unfoldable pub validated :
    PlanningInput
    → PlannedOperation
    → DiagnosticReport
    → PlanResult Actions
    → Option (PlanResult PlanOutcome)
validated input operation diagnostics (err e) = some (err e)
validated input operation diagnostics (ok actions) = elim (validate_action_dag actions) [
  | none ↦ none
  | some r ↦
      some
        (r >>= λ _. ok (planned (new_plan input.identity operation actions Report.new) diagnostics))
]
