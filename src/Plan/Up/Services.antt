-- ===== src/Plan/Up/Services.antt =====
-- crates/susun-planner/src/up/services.rs: the actions that create and start the containers of the services.
use susun.Prelude.{
  Bool, true, false, Option, none, some, List, [], ◌∷◌, ◌++◌, Text, text, list_eq, nat_eq,
  option_eq, ◌=?◌, if◌then◌else◌, suc, ℕ, ltb,
}
use susun.IndexMap.{IndexMap, contains, insert_set, get, insert, keys, values}
use susun.Diagnostics.{error, new_diagnostic}
use susun.Diagnostics.Report
use susun.Diagnostics.Report.{DiagnosticReport}
use susun.Engine.{ServiceInstanceId, instance_eq, ObservedContainer, new_instance}
use susun.Model.{
  ServiceName, Service, ServiceDependency, DependencyCondition, service_started, service_healthy,
  service_completed_successfully,
}
use susun.Plan.{
  ActionId, PlanActionNode, create_container, start_container, wait_for_dependency, up,
  CreateContainerAction, service_requested, dependency_required, safe,
}
use susun.Plan.Dag.{PlanResult, ok, ◌>>=◌}
use susun.Plan.Input.{PlanningInput, make_action_id, new_node, Actions, insert_action}
use susun.Plan.Naming.{NamingPolicy}
use susun.Plan.Up.Needs.{volume_sources}
use susun.Plan.Up.Resources.{UpResourceActions, named}
use susun.Plan.Up.Mounts.{runtime_networks, runtime_volumes, runtime_configs, runtime_secrets}

-- `if let Some(id) = ids.get(name) { dependencies.insert(id.clone()) }`
unfoldable pub add_found : IndexMap Text ActionId → Text → List ActionId → List ActionId
add_found ids name dependencies = elim (get ids name) [
  | none ↦ dependencies
  | some id ↦ insert_set id dependencies
]

unfoldable pub add_all_found : IndexMap Text ActionId → List Text → List ActionId → List ActionId
add_all_found ids [] dependencies = dependencies
add_all_found ids (name ∷ names) dependencies =
    add_all_found ids names (add_found ids name dependencies)

abbrev pub image_names : Option Text → List Text
image_names none = []
image_names (some image) = image ∷ []

-- `add_service_resource_dependencies`, on an empty set.
unfoldable pub resource_dependencies : ServiceName → Service → UpResourceActions → List ActionId
resource_dependencies name service resources =
    add_all_found resources.volumes (volume_sources service.volumes) (
      add_all_found resources.networks (keys service.networks) (
        add_all_found resources.images (image_names service.image)
          (add_found resources.builds name [])))

-- The number of containers that claim an instance.
unfoldable pub claims_of : ServiceInstanceId → List ObservedContainer → ℕ
claims_of identity [] = 0
claims_of identity (c ∷ containers) =
    if c.service_identity =? some identity
    then suc (claims_of identity containers)
    else claims_of identity containers

-- `duplicate_container_claim`
abbrev pub duplicate_container_claim : PlanningInput → ServiceInstanceId → Bool
duplicate_container_claim input identity =
    ltb 1 (claims_of identity (values input.snapshot.containers))

-- What the loop over the services fills.
pub record ServiceState : Type 0 where
  pub actions : Actions
  pub start_ids : IndexMap ServiceName ActionId
  pub diagnostics : DiagnosticReport

-- The derived `Debug` of `DependencyCondition`.
abbrev pub debug_condition : DependencyCondition → Text
debug_condition service_started = text "ServiceStarted"
debug_condition service_healthy = text "ServiceHealthy"
debug_condition service_completed_successfully = text "ServiceCompletedSuccessfully"

abbrev pub is_started_condition : DependencyCondition → Bool
is_started_condition service_started = true
is_started_condition _ = false

-- `if let Some(start_node) = actions.get_mut(start_id) { start_node.dependencies.insert(id) }`
unfoldable pub add_dependency_to : ActionId → ActionId → Actions → Actions
add_dependency_to start_id id actions = elim (get actions start_id) [
  | none ↦ actions
  | some node ↦
      insert start_id (record node { dependencies = insert_set id node.dependencies }) actions
]

abbrev pub wait_node :
    PlanningInput
    → ServiceInstanceId
    → (dependency : ServiceName) → DependencyCondition
    → ActionId
    → PlanActionNode
wait_node input identity dependency condition dependency_start =
    let action =
      wait_for_dependency identity (new_instance input.identity.working_set dependency 0)
        (debug_condition condition) in
    new_node (make_action_id up input action dependency) action (dependency_start ∷ [])
      dependency_required (text "service dependency condition must be satisfied") safe

-- The body of the loop of `add_wait_actions`, for a dependency that has a start; `start_id` is that of the
-- service itself.
unfoldable pub add_wait :
    PlanningInput
    → ServiceInstanceId
    → (start_id : ActionId) → ServiceName
    → DependencyCondition
    → ActionId
    → Actions
    → PlanResult Actions
add_wait input identity start_id dependency condition dependency_start actions = do
  let node = wait_node input identity dependency condition dependency_start
  waiting ← insert_action actions node
  ok (add_dependency_to start_id node.id waiting)

unfoldable pub add_wait_actions :
    PlanningInput
    → ServiceInstanceId
    → (start_id : ActionId) → (start_ids : IndexMap ServiceName ActionId)
    → IndexMap ServiceName ServiceDependency
    → Actions
    → PlanResult Actions
add_wait_actions input identity start_id start_ids [] actions = ok actions
add_wait_actions input identity start_id start_ids ((dependency, d) ∷ depends_on) actions = do
  next ←
      (if is_started_condition d.condition then ok actions else elim (get start_ids dependency) [
        | none ↦ ok actions
        | some dependency_start ↦
            add_wait input identity start_id dependency d.condition dependency_start actions
      ])
  add_wait_actions input identity start_id start_ids depends_on next

abbrev pub create_action :
    PlanningInput
    → UpResourceActions
    → ServiceInstanceId
    → Service
    → (runtime_name : Text) → CreateContainerAction
create_action input resources identity service runtime_name = record {
  identity = identity;
  name = runtime_name;
  image = service.image;
  command = service.command;
  entrypoint = service.entrypoint;
  environment = service.environment;
  labels = service.labels;
  ports = service.ports;
  volumes = runtime_volumes resources service.volumes;
  configs = runtime_configs input.project service;
  secrets = runtime_secrets input.project service;
  networks = runtime_networks service resources;
  healthcheck = service.healthcheck;
  restart = service.restart;
}

abbrev pub create_node :
    PlanningInput
    → UpResourceActions
    → ServiceInstanceId
    → Service
    → (runtime_name : Text) → PlanActionNode
create_node input resources identity service runtime_name =
    let action = create_container (create_action input resources identity service runtime_name) in
    new_node (make_action_id up input action (text "0")) action
      (resource_dependencies identity.service service resources) service_requested
      (text "selected service requires a container") safe

abbrev pub start_node :
    PlanningInput → ServiceInstanceId → (dependencies : List ActionId) → PlanActionNode
start_node input identity dependencies =
    new_node (make_action_id up input (start_container identity) (text "0"))
      (start_container identity) dependencies service_requested
      (text "selected service should be started") safe

-- The actions of a service, from the first insertion on.
unfoldable pub add_service :
    PlanningInput
    → UpResourceActions
    → ServiceName
    → Service
    → (runtime_name : Text) → ServiceState
    → PlanResult ServiceState
add_service input resources name service runtime_name st = do
  let identity = new_instance input.identity.working_set name 0
  let create = create_node input resources identity service runtime_name
  creating ← insert_action st.actions create
  let start =
      start_node input identity
        (add_all_found st.start_ids (keys service.depends_on) (create.id ∷ []))
  starting ← insert_action creating start
  let start_ids = insert name start.id st.start_ids
  waiting ← add_wait_actions input identity start.id start_ids service.depends_on starting
  ok (record st { actions = waiting; start_ids = start_ids })

-- The duplicate check, in front of them.
unfoldable pub check_service :
    PlanningInput
    → UpResourceActions
    → ServiceName
    → Service
    → (runtime_name : Text) → ServiceState
    → PlanResult ServiceState
check_service input resources name service runtime_name st =
    let added = add_service input resources name service runtime_name st in
    if duplicate_container_claim input (new_instance input.identity.working_set name 0)
    then ok (record st {
      diagnostics = Report.push st.diagnostics (
          new_diagnostic (text "SUS-PLAN-002") error
            (text "multiple observed containers claim service '" ++ (name ++ text "'")));
    })
    else added

unfoldable pub plan_known_service :
    PlanningInput
    → NamingPolicy
    → UpResourceActions
    → ServiceName
    → Service
    → ServiceState
    → PlanResult ServiceState
plan_known_service input naming resources name service st = do
  runtime_name ← named (naming.container_name (new_instance input.identity.working_set name 0))
  check_service input resources name service runtime_name st

-- The body of the loop over the services.
unfoldable pub plan_service :
    PlanningInput
    → NamingPolicy
    → UpResourceActions
    → ServiceName
    → ServiceState
    → PlanResult ServiceState
plan_service input naming resources name st =
    if contains input.selection.active_services name
    then (elim (get input.project.services name) [
      | none ↦ ok st
      | some service ↦ plan_known_service input naming resources name service st
    ])
    else ok st

-- `plan_services`
unfoldable pub plan_services :
    PlanningInput
    → NamingPolicy
    → UpResourceActions
    → List ServiceName
    → ServiceState
    → PlanResult ServiceState
plan_services input naming resources [] st = ok st
plan_services input naming resources (name ∷ names) st = do
  next ← plan_service input naming resources name st
  plan_services input naming resources names next
