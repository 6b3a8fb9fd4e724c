-- ===== src/Plan.antt =====
-- crates/susun-planner/src/plan: the actions of an execution plan (action.rs), their reasons and
-- safety (reason.rs), and the planner's errors (src/error.rs).
pub mod Dag
pub mod Id
pub mod Input
pub mod Built
pub mod Ready
pub mod Yields
pub mod Returned
pub mod Owned
pub mod Naming
pub mod Preflight
pub mod Up
pub mod Down
pub mod Execution
use susun.Prelude.{ℕ, suc, ◌++◌, Bool, Option, List, [], ◌∷◌, Text, text, length}
use susun.IndexMap.{IndexMap, values}
use susun.Model.{
  ImageRef, Command, BuildDefinition, CanonicalPort, CanonicalVolume, NetworkAttachment,
  Healthcheck,
}
use susun.Engine.{ServiceInstanceId, NetworkIdentity, VolumeIdentity, ProjectIdentity}

abbrev pub ActionId : Type 0
ActionId = Text

pub data PlannedOperation : Type 0 where
  up down : PlannedOperation

pub data ActionReason : Type 0 where
  resource_missing image_unavailable_locally build_declared build_inputs_require_verification
        service_requested dependency_required teardown_requested orphan_removal_requested
        existing_resource_accepted capability_constraint :
      ActionReason

pub record ActionExplanation : Type 0 where
  pub code : ActionReason
  pub message : Text

pub data ActionSafety : Type 0 where
  safe caution destructive : ActionSafety

pub record MaterializedResourceMount : Type 0 where
  pub source : Text
  pub target : Text
  pub uid : Option Text
  pub gid : Option Text
  pub mode : Option Text
  pub secret : Bool

pub record CreateContainerAction : Type 0 where
  pub identity : ServiceInstanceId
  pub name : Text
  pub image : Option ImageRef
  pub command : Option Command
  pub entrypoint : Option Command
  pub environment : IndexMap Text (Option Text)
  pub labels : IndexMap Text Text
  pub ports : List CanonicalPort
  pub volumes : List CanonicalVolume
  pub configs : List MaterializedResourceMount
  pub secrets : List MaterializedResourceMount
  pub networks : IndexMap Text NetworkAttachment
  pub healthcheck : Option Healthcheck
  pub restart : Option Text

-- Each variant with the fields of its action struct.
pub data PlanAction : Type 0 where
  verify_build_inputs : (identity : ServiceInstanceId) → PlanAction
  build_image :
      (identity : ServiceInstanceId) (build : BuildDefinition) (image : Option ImageRef)
      → PlanAction
  pull_image : (image : ImageRef) → PlanAction
  create_network : (identity : NetworkIdentity) (name : Text) → PlanAction
  create_volume : (identity : VolumeIdentity) (name : Text) → PlanAction
  create_container : CreateContainerAction → PlanAction
  start_container : (identity : ServiceInstanceId) → PlanAction
  wait_for_dependency : (dependent dependency : ServiceInstanceId) (condition : Text) → PlanAction
  stop_container : (identity : ServiceInstanceId) → PlanAction
  remove_container : (identity : ServiceInstanceId) → PlanAction
  remove_network : (identity : NetworkIdentity) → PlanAction
  remove_volume : (identity : VolumeIdentity) → PlanAction
  rename_container : (identity : ServiceInstanceId) (from to : Text) → PlanAction
  recreate_container : (identity : ServiceInstanceId) (strategy : Text) → PlanAction
  preserve_volume : (identity : VolumeIdentity) (reason : Text) → PlanAction
  verify_replacement : (identity : ServiceInstanceId) → PlanAction
  remove_orphan : (resource kind : Text) → PlanAction
  scale_up_replica : (identity : ServiceInstanceId) → PlanAction
  scale_down_replica : (identity : ServiceInstanceId) → PlanAction
  no_op : (resource description : Text) → PlanAction

pub record PlanActionNode : Type 0 where
  pub id : ActionId
  pub action : PlanAction
  pub dependencies : List ActionId
  pub reason : ActionExplanation
  pub safety : ActionSafety

-- `PlanAction::kind`
abbrev pub kind : PlanAction → Text
kind (verify_build_inputs _) = text "verify_build_inputs"
kind (build_image _ _ _) = text "build_image"
kind (pull_image _) = text "pull_image"
kind (create_network _ _) = text "create_network"
kind (create_volume _ _) = text "create_volume"
kind (create_container _) = text "create_container"
kind (start_container _) = text "start_container"
kind (wait_for_dependency _ _ _) = text "wait_for_dependency"
kind (stop_container _) = text "stop_container"
kind (remove_container _) = text "remove_container"
kind (remove_network _) = text "remove_network"
kind (remove_volume _) = text "remove_volume"
kind (rename_container _ _ _) = text "rename_container"
kind (recreate_container _ _) = text "recreate_container"
kind (preserve_volume _ _) = text "preserve_volume"
kind (verify_replacement _) = text "verify_replacement"
kind (remove_orphan _ _) = text "remove_orphan"
kind (scale_up_replica _) = text "scale_up_replica"
kind (scale_down_replica _) = text "scale_down_replica"
kind (no_op _ _) = text "no_op"

pub record PlanSummary : Type 0 where
  pub total_actions : ℕ
  pub safe_actions : ℕ
  pub caution_actions : ℕ
  pub destructive_actions : ℕ

-- One round of the loop over the actions.
abbrev pub count_action : ActionSafety → PlanSummary → PlanSummary
count_action safe s = record s { safe_actions = suc s.safe_actions }
count_action caution s = record s { caution_actions = suc s.caution_actions }
count_action destructive s = record s { destructive_actions = suc s.destructive_actions }

unfoldable pub count_actions : List PlanActionNode → PlanSummary → PlanSummary
count_actions [] s = s
count_actions (n ∷ nodes) s = count_actions nodes (count_action n.safety s)

-- `PlanSummary::from_actions`
unfoldable pub from_actions : IndexMap ActionId PlanActionNode → PlanSummary
unfolding count_actions values
from_actions actions = count_actions (values actions) (record {
  total_actions = length actions;
  safe_actions = 0;
  caution_actions = 0;
  destructive_actions = 0;
})

pub data PlanError : Type 0 where
  invariant_violation : (detail : Text) → PlanError
  action_id_collision : ActionId → PlanError
  invalid_dependency_reference : (action dependency : ActionId) → PlanError
