-- ===== src/Convergence/Deployment.antt =====
-- crates/susun-convergence/src/deployment.rs: the desired and the observed deployment.
use susun.Prelude.{ℕ, List, [], ◌∷◌, list_eq, nat_eq, if◌then◌else◌}
use susun.IndexMap.{IndexMap, insert, contains_key}
use susun.Model.{ServiceName, Project}
use susun.Engine.{ProjectIdentity, EngineSnapshot}
use susun.Selection.{ProjectSelection}
use susun.Graph.{DependencyGraph}
use susun.Convergence.Ownership.{OwnershipIndex, from_snapshot}

-- `DesiredReplicaCount` wraps a `u32`.
abbrev pub DesiredReplicaCount : Type 0
DesiredReplicaCount = ℕ

pub record DesiredDeployment : Type 0 where
  pub project : Project
  pub selection : ProjectSelection
  pub graph : DependencyGraph
  pub identity : ProjectIdentity
  pub replicas : IndexMap ServiceName DesiredReplicaCount

-- `for service in active { replicas.entry(service).or_insert(ONE) }`
unfoldable pub fill_replicas :
    List ServiceName
    → IndexMap ServiceName DesiredReplicaCount
    → IndexMap ServiceName DesiredReplicaCount
fill_replicas [] replicas = replicas
fill_replicas (s ∷ services) replicas =
    fill_replicas services (if contains_key replicas s then replicas else insert s 1 replicas)

-- `DesiredDeployment::new`
unfoldable pub new_desired :
    Project
    → ProjectSelection
    → DependencyGraph
    → ProjectIdentity
    → IndexMap ServiceName DesiredReplicaCount
    → DesiredDeployment
unfolding fill_replicas
new_desired project selection graph identity replicas = record {
  project = project;
  selection = selection;
  graph = graph;
  identity = identity;
  replicas = fill_replicas selection.active_services replicas;
}

pub record ObservedDeployment : Type 0 where
  pub snapshot : EngineSnapshot
  pub ownership : OwnershipIndex

-- `ObservedDeployment::new`
unfoldable pub new_observed : EngineSnapshot → List ServiceName → ObservedDeployment
unfolding from_snapshot
new_observed snapshot services = record {
  snapshot = snapshot;
  ownership = from_snapshot snapshot services;
}
