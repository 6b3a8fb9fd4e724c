-- ===== src/Graph.antt =====
-- crates/susun-graph/src/lib.rs: the dependency graph of the selected services.
pub mod Edges
pub mod Filled
pub mod Correct
mod Examples
use susun.Prelude.{
  ℕ, ◌+◌, Bool, true, false, Option, none, some, List, [], ◌∷◌, Text, text, Eq, list_eq, nat_eq,
  ◌==◌, if◌then◌else◌, length,
}
use susun.IndexMap.{IndexMap, contains, insert_set, get, insert, keys}
use susun.Model.{ServiceName, Project}
use susun.Selection.{ProjectSelection}
use susun.Diagnostics.{Diagnostic, error, new_diagnostic}
use susun.Diagnostics.Report
use susun.Diagnostics.Report.{DiagnosticReport}
use susun.Kahn.{drain, degree, ready_nodes}

pub record DependencyGraph : Type 0 where
  pub order : List ServiceName
  pub edges : IndexMap ServiceName (List ServiceName)

pub record GraphOutcome : Type 0 where
  pub graph : Option DependencyGraph
  pub report : DiagnosticReport

-- The two tables that the loops fill. (The loops only compare names: they are stated for any type
-- of keys with an equality.)
pub record Tables (K : Type 0) : Type 0 where
  pub edges : IndexMap K (List K)
  pub indegree : IndexMap K ℕ

module _ {K : Type 0} ⦃e : Eq K⦄ where
  -- `for service in active { edges.insert(..); indegree.insert(..); }`
  unfoldable pub init_tables : List K → Tables K → Tables K
  init_tables [] t = t
  init_tables (s ∷ active) t =
      init_tables active (record { edges = insert s [] t.edges; indegree = insert s 0 t.indegree })

  -- The body of the inner loop, for one key of `depends_on`.
  unfoldable pub add_dependency : (active : List K) (service dep : K) → Tables K → Tables K
  add_dependency active service dep t =
      if contains active dep
      then elim (get t.edges dep) [
        | none ↦ t
        | some dependents ↦ if contains dependents service then t else record {
          edges = insert dep (insert_set service dependents) t.edges;
          indegree = insert service (degree t.indegree service + 1) t.indegree;
        }
      ]
      else t

  unfoldable pub add_dependencies :
      (active : List K) (service : K) (deps : List K) → Tables K → Tables K
  unfolding add_dependency
  add_dependencies active service [] t = t
  add_dependencies active service (d ∷ deps) t =
      add_dependencies active service deps (add_dependency active service d t)

  -- The outer loop; `deps` gives the keys of `depends_on`, or nothing where there is no such service.
  unfoldable pub add_services : (deps : K → List K) (active todo : List K) → Tables K → Tables K
  unfolding add_dependencies
  add_services deps active [] t = t
  add_services deps active (s ∷ todo) t =
      add_services deps active todo (add_dependencies active s (deps s) t)

  unfoldable pub tables : (deps : K → List K) → List K → Tables K
  unfolding init_tables add_services
  tables deps active =
      add_services deps active active (init_tables active (record { edges = []; indegree = [] }))

-- `service.depends_on.keys()`, or nothing where the project has no such service.
unfoldable pub depends_on_keys : Project → ServiceName → List ServiceName
depends_on_keys project s = elim (get project.services s) [
  | none ↦ []
  | some service ↦ keys service.depends_on
]

abbrev pub cycle_diagnostic : Diagnostic
cycle_diagnostic =
    new_diagnostic (text "SUS-GRAPH-001") error
      (text "dependency cycle detected among active services")

abbrev pub outcome :
    (active order : List ServiceName) (edges : IndexMap ServiceName (List ServiceName))
    → GraphOutcome
outcome active order edges =
    if length order == length active
    then record { graph = some (record { order = order; edges = edges }); report = Report.new }
    else record { graph = none; report = Report.push Report.new cycle_diagnostic }

-- The end of the function, on the order that the loop leaves.
abbrev pub conclude :
    (active : List ServiceName) (edges : IndexMap ServiceName (List ServiceName))
    → Option (List ServiceName)
    → Option GraphOutcome
conclude active edges none = none
conclude active edges (some order) = some (outcome active order edges)

-- `none` stands for a loop that does not end.
unfoldable pub build_graph : Project → ProjectSelection → Option GraphOutcome
unfolding tables drain ready_nodes depends_on_keys
build_graph project selection =
    let active = selection.active_services in
    let t = tables (depends_on_keys project) active in
    conclude active t.edges
      (drain (length active) t.edges (ready_nodes t.indegree active) t.indegree [])
