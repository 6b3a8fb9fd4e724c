-- ===== src/Plan/Up/Examples.antt =====
-- A project with a service that has a network and a volume and waits for the health of another, and the theorems about its plan of `up`.
use susun.Prelude.{◌≡◌, refl, false, some, none, [], ◌∷◌, text, list_eq, nat_eq, Option}
use susun.IndexMap.{contains, insert_set, get, insert, keys, IsDistinct}
use susun.Diagnostics.Report
use susun.Engine.Capabilities.{permissive_local}
use susun.Model.{
  ResourceDefinition, VolumeKind, Project, Service, default_service, default_dependency,
  service_healthy,
}
use susun.Selection.{ProjectSelection}
use susun.Graph.{DependencyGraph, GraphOutcome, build_graph}
use susun.Plan.{PlanError, up}
use susun.Plan.Execution.{ExecutionPlan}
use susun.Plan.Dag.{PlanResult, ok, err}
use susun.Plan.Input.{PlanningInput, PlanOutcome, blocked, default_up, new_plan}
use susun.Plan.Naming.{NamingPolicy, susun_naming}
use susun.Plan.Up.{plan_up}
use susun.Plan.Up.Services
use susun.Plan.Up.Waits.{IsUpError}
use susun.Plan.Up.Correct.{plan_up_total}

abbrev db : Service
db = record default_service { image = some (text "db") }

abbrev web : Service
web = record default_service {
  image = some (text "web");
  depends_on = (text "db", record default_dependency { condition = service_healthy }) ∷ [];
  networks = (text "net", record { aliases = [] }) ∷ [];
  volumes =
      record {
        kind = VolumeKind.volume;
        source = some (text "data");
        target = text "/d";
        read_only = false;
      }
      ∷ [];
}

abbrev local_resource : ResourceDefinition
local_resource = record { external = false; name = none; file = none }

abbrev shop : Project
shop = record {
  name = text "shop";
  services = (text "web", web) ∷ (text "db", db) ∷ [];
  networks = (text "net", local_resource) ∷ [];
  volumes = (text "data", local_resource) ∷ [];
  configs = [];
  secrets = [];
}

abbrev selected : ProjectSelection
selected = record { active_services = text "web" ∷ text "db" ∷ [] }

selected-IsDistinct : IsDistinct selected.active_services
unfolding contains
selected-IsDistinct = (refl, (refl, tt))

abbrev shop_graph : DependencyGraph
shop_graph = record {
  order = text "db" ∷ text "web" ∷ [];
  edges = (text "web", []) ∷ (text "db", text "web" ∷ []) ∷ [];
}

abbrev graph_outcome : GraphOutcome
graph_outcome = record {
  graph = some shop_graph;
  report = record { diagnostics = []; next_ordinal = 0 };
}

shop_graph-returned : build_graph shop selected ≡ some graph_outcome
unfolding build_graph get keys contains insert insert_set
shop_graph-returned = refl

abbrev input : PlanningInput
input = record {
  project = shop;
  selection = selected;
  graph = shop_graph;
  identity = record { name = text "shop"; working_set = text "w1" };
  capabilities = permissive_local;
  snapshot = record { observed_at = 0; containers = []; networks = []; volumes = []; images = [] };
}

abbrev naming : NamingPolicy
naming = susun_naming none

abbrev outcome_of : Option (PlanResult PlanOutcome) → PlanOutcome
outcome_of (some (ok outcome)) = outcome
outcome_of _ = blocked Report.new

abbrev plan_of : Option ExecutionPlan → ExecutionPlan
plan_of (some plan) = plan
plan_of none = new_plan input.identity up [] Report.new

abbrev outcome : PlanOutcome
outcome = outcome_of (plan_up input default_up naming)

plan_up_total_example :
    (x : PlanResult PlanOutcome) × (plan_up input default_up naming ≡ some x)
    × ((e : PlanError) → x ≡ err e → IsUpError e)
plan_up_total_example =
    plan_up_total input default_up naming graph_outcome shop_graph-returned refl selected-IsDistinct
