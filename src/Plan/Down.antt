-- ===== src/Plan/Down.antt =====
-- crates/susun-planner/src/down/mod.rs: the plan that tears a project down.
pub mod Roles
pub mod Services
pub mod Removals
pub mod Correct
mod Examples
use mathlib.Core.List.{reverse}
use susun.Prelude.{
  ◌||◌, Bool, true, false, not, Option, none, some, List, [], ◌∷◌, ◌++◌, Text, text, list_eq,
  nat_eq, if◌then◌else◌,
}
use susun.IndexMap.{IndexMap, contains, from_iter_onto, get, insert, values}
use susun.Diagnostics.{error, new_diagnostic}
use susun.Diagnostics.Report
use susun.Diagnostics.Report.{DiagnosticReport}
use susun.Engine.{SnapshotCompleteness, complete, ServiceInstanceId}
use susun.Model.{ServiceName}
use susun.Plan.{
  ActionId, PlanAction, stop_container, remove_container, remove_network, remove_volume, no_op,
  PlanActionNode, PlannedOperation, down, teardown_requested, existing_resource_accepted,
  destructive, safe,
}
use susun.Plan.Dag.{PlanResult, ok, err, ◌>>=◌, validate_action_dag}
use susun.Plan.Input.{
  PlanningInput, PlanOutcome, planned, blocked, DownPlanOptions, make_action_id, new_node, Actions,
  insert_action, service_identity_for, validated,
}
use susun.Plan.Owned.{OwnedResourceIndex, index_owned_resources}

-- `completeness != SnapshotCompleteness::Complete`
abbrev pub is_incomplete : SnapshotCompleteness → Bool
is_incomplete complete = false
is_incomplete _ = true

unfoldable pub container_snapshot_incomplete : PlanningInput → List Text → Bool
container_snapshot_incomplete input [] = false
container_snapshot_incomplete input (id ∷ ids) =
    (elim (get input.snapshot.containers id) [
      | none ↦ false
      | some c ↦ is_incomplete c.completeness
    ])
    || container_snapshot_incomplete input ids

-- What the loop over the services fills.
pub record DownState : Type 0 where
  pub actions : Actions
  pub remove_container_ids : IndexMap ServiceName ActionId
  pub diagnostics : DiagnosticReport

abbrev pub stop_node : PlanningInput → ServiceInstanceId → PlanActionNode
stop_node input identity =
    new_node (make_action_id down input (stop_container identity) (text "0"))
      (stop_container identity) [] teardown_requested (text "selected service should be stopped")
      destructive

abbrev pub remove_node : PlanningInput → ServiceInstanceId → (stop_id : ActionId) → PlanActionNode
remove_node input identity stop_id =
    new_node (make_action_id down input (remove_container identity) (text "0"))
      (remove_container identity) (stop_id ∷ []) teardown_requested
      (text "selected service container should be removed") destructive

-- The two actions of a service, from the first insertion on.
unfoldable pub remove_service : PlanningInput → ServiceName → DownState → PlanResult DownState
remove_service input service st = do
  let identity = service_identity_for input.identity.working_set service
  let stop = stop_node input identity
  let remove = remove_node input identity stop.id
  stopping ← insert_action st.actions stop
  removing ← insert_action stopping remove
  ok (record st {
    actions = removing;
    remove_container_ids = insert service remove.id st.remove_container_ids;
  })

unfoldable pub down_owned :
    PlanningInput → ServiceName → (container_ids : List Text) → DownState → PlanResult DownState
down_owned input service [] st = ok st
down_owned input service (id ∷ ids) st =
    if container_snapshot_incomplete input (id ∷ ids)
    then ok (record st {
      diagnostics = Report.push st.diagnostics (
          new_diagnostic (text "SUS-PLAN-020") error (
            text "cannot safely remove service '"
            ++ (service ++ text "' from incomplete snapshot")));
    })
    else remove_service input service st

-- The body of the loop over the services.
unfoldable pub down_service :
    PlanningInput → OwnedResourceIndex → ServiceName → DownState → PlanResult DownState
down_service input owned service st =
    if contains input.selection.active_services service
    then elim (get owned.containers_by_service service) [
      | none ↦ ok st
      | some ids ↦ down_owned input service ids st
    ]
    else ok st

unfoldable pub down_services :
    PlanningInput → OwnedResourceIndex → List ServiceName → DownState → PlanResult DownState
down_services input owned [] st = ok st
down_services input owned (s ∷ services) st = do
  st' ← down_service input owned s st
  down_services input owned services st'

-- The action for one network, and that for one volume.
unfoldable pub plan_one_network :
    PlanningInput
    → (remove_ids : List ActionId) → (network_id : Text) → Actions
    → PlanResult Actions
plan_one_network input remove_ids network_id actions =
    elim (get input.snapshot.networks network_id) [
      | none ↦ ok actions
      | some network ↦ elim network.network_identity [
        | none ↦ ok actions
        | some identity ↦ insert_action actions (
            new_node (make_action_id down input (remove_network identity) network_id)
              (remove_network identity) (from_iter_onto [] remove_ids) teardown_requested
              (text "owned project network should be removed") destructive)
      ]
    ]

unfoldable pub plan_one_volume :
    PlanningInput → (remove_ids : List ActionId) → (volume_id : Text) → Actions → PlanResult Actions
plan_one_volume input remove_ids volume_id actions = elim (get input.snapshot.volumes volume_id) [
  | none ↦ ok actions
  | some volume ↦ elim volume.volume_identity [
    | none ↦ ok actions
    | some identity ↦ insert_action actions (
        new_node (make_action_id down input (remove_volume identity) volume_id)
          (remove_volume identity) (from_iter_onto [] remove_ids) teardown_requested
          (text "owned project volume should be removed") destructive)
  ]
]

unfoldable pub plan_network_removal :
    PlanningInput
    → (network_ids : List Text) (remove_ids : List ActionId) → Actions
    → PlanResult Actions
plan_network_removal input [] remove_ids actions = ok actions
plan_network_removal input (n ∷ network_ids) remove_ids actions = do
  next ← plan_one_network input remove_ids n actions
  plan_network_removal input network_ids remove_ids next

unfoldable pub plan_volume_removal :
    PlanningInput
    → (volume_ids : List Text) (remove_ids : List ActionId) → Actions
    → PlanResult Actions
plan_volume_removal input [] remove_ids actions = ok actions
plan_volume_removal input (v ∷ volume_ids) remove_ids actions = do
  next ← plan_one_volume input remove_ids v actions
  plan_volume_removal input volume_ids remove_ids next

abbrev pub no_op_action : PlanAction
no_op_action = no_op (text "project") (text "no owned resources require teardown")

-- `if actions.is_empty()`
unfoldable pub or_no_op : PlanningInput → Actions → PlanResult Actions
or_no_op input [] = insert_action [] (
    new_node (make_action_id down input no_op_action (text "0")) no_op_action []
      existing_resource_accepted (text "project is already down") safe)
or_no_op input (a ∷ actions) = ok (a ∷ actions)

-- The removals behind the loop over the services.
unfoldable pub down_actions :
    PlanningInput → DownPlanOptions → OwnedResourceIndex → DownState → PlanResult Actions
down_actions input options owned st = do
  let remove_ids = values st.remove_container_ids
  networks ← plan_network_removal input owned.networks remove_ids st.actions
  volumes ←
      (if options.remove_volumes
        then plan_volume_removal input owned.volumes remove_ids networks
        else ok networks)
  or_no_op input volumes

unfoldable pub after_services :
    PlanningInput
    → DownPlanOptions
    → OwnedResourceIndex
    → PlanResult DownState
    → Option (PlanResult PlanOutcome)
after_services input options owned (err e) = some (err e)
after_services input options owned (ok st) =
    if Report.has_errors st.diagnostics
    then some (ok (blocked st.diagnostics))
    else validated input down st.diagnostics (down_actions input options owned st)

unfoldable pub plan_down : PlanningInput → DownPlanOptions → Option (PlanResult PlanOutcome)
plan_down input options =
    let (owned, diagnostics) = index_owned_resources input Report.new in
    if Report.has_errors diagnostics
    then some (ok (blocked diagnostics))
    else after_services input options owned (
        down_services input owned (reverse input.graph.order)
          (record { actions = []; remove_container_ids = []; diagnostics = diagnostics }))
