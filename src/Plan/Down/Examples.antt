-- ===== src/Plan/Down/Examples.antt =====
-- A project with one running service and one network, and the theorems about its teardown.
use susun.Prelude.{◌≡◌, refl, some, none, List, [], ◌∷◌, text, list_eq, nat_eq, Option}
use susun.IndexMap.{contains, insert_set, from_iter_onto, get, insert, keys, values, contains_key}
use susun.Diagnostics.Report
use susun.Engine.{
  ObservedContainer, ObservedNetwork, running, complete, new_instance, unknown, EngineSnapshot,
}
use susun.Engine.Capabilities.{permissive_local}
use susun.Model.{default_service}
use susun.Plan.{ActionId, PlanError, action_id_collision, down}
use susun.Plan.Execution.{ExecutionPlan}
use susun.Plan.Dag.{PlanResult, ok, err, topological_action_order, validate_action_dag}
use susun.Plan.Dag.Correct.{IsWellTyped}
use susun.Plan.Input.{
  PlanningInput, PlanOutcome, blocked, default_down, insert_action, make_action_id, new_plan,
  validated,
}
use susun.Plan.Owned.{index_owned_resources}
use susun.Plan.Down.{
  container_snapshot_incomplete, remove_service, down_owned, down_service, down_services,
  plan_one_network, plan_network_removal, plan_volume_removal, or_no_op, down_actions,
  after_services, plan_down,
}
use susun.Plan.Down.Correct.{IsDownPlan, plan_down_total, plan_down-IsDownPlan}

abbrev web : ObservedContainer
web = record {
  id = text "c1";
  name = text "web";
  state = running;
  health = none;
  image = unknown;
  labels = [];
  project_identity = some (text "w1");
  service_identity = some (new_instance (text "w1") (text "web") 0);
  configuration_fingerprint = none;
  completeness = complete;
}

abbrev back : ObservedNetwork
back = record {
  id = text "n1";
  name = text "back";
  labels = [];
  project_identity = some (text "w1");
  network_identity = some (record { project = text "w1"; network = text "back" });
  completeness = complete;
}

abbrev snapshot : EngineSnapshot
snapshot = record {
  observed_at = 0;
  containers = (text "c1", web) ∷ [];
  networks = (text "n1", back) ∷ [];
  volumes = [];
  images = [];
}

abbrev input : PlanningInput
input = record {
  project = record {
    name = text "demo";
    services = (text "web", default_service) ∷ [];
    networks = [];
    volumes = [];
    configs = [];
    secrets = [];
  };
  selection = record { active_services = text "web" ∷ [] };
  graph = record { order = text "web" ∷ []; edges = [] };
  identity = record { name = text "demo"; working_set = text "w1" };
  capabilities = permissive_local;
  snapshot = snapshot;
}

abbrev outcome_of : Option (PlanResult PlanOutcome) → PlanOutcome
outcome_of (some (ok outcome)) = outcome
outcome_of _ = blocked Report.new

abbrev plan_of : Option ExecutionPlan → ExecutionPlan
plan_of (some plan) = plan
plan_of none = new_plan input.identity down [] Report.new

abbrev outcome : PlanOutcome
outcome = outcome_of (plan_down input default_down)

returned : plan_down input default_down ≡ some (ok outcome)
unfolding plan_down index_owned_resources down_services down_service down_owned
    container_snapshot_incomplete remove_service insert_action make_action_id after_services
    down_actions plan_network_removal plan_one_network plan_volume_removal or_no_op validated
    validate_action_dag get insert keys values contains contains_key insert_set from_iter_onto
    Report.has_errors
returned = refl

has_plan : outcome.plan ≡ some (plan_of outcome.plan)
unfolding plan_down index_owned_resources down_services down_service down_owned
    container_snapshot_incomplete remove_service insert_action make_action_id after_services
    down_actions plan_network_removal plan_one_network plan_volume_removal or_no_op validated
    validate_action_dag get insert keys values contains contains_key insert_set from_iter_onto
    Report.has_errors
has_plan = refl

plan_down_total_example :
    (x : PlanResult PlanOutcome) × (plan_down input default_down ≡ some x)
    × ((e : PlanError) → x ≡ err e → (id : ActionId) × (e ≡ action_id_collision id))
plan_down_total_example = plan_down_total input default_down

plan_down-IsDownPlan_example :
    IsDownPlan input (plan_of outcome.plan).actions
    × IsWellTyped (plan_of outcome.plan).actions
    × ((order : List ActionId) × (topological_action_order (plan_of outcome.plan).actions
          ≡ some (ok order)))
plan_down-IsDownPlan_example =
    plan_down-IsDownPlan input default_down outcome (plan_of outcome.plan) returned has_plan
