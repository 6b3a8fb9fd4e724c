-- ===== src/Runtime/Graph.antt =====
-- crates/susun-runtime/src/runtime.rs: `RuntimeGraph` and `release_dependents`.
use susun.Prelude.{
  ℕ, ◌-◌, not, ◌&&◌, none, some, List, [], ◌∷◌, ◌++◌, list_eq, nat_eq, ◌==◌, if◌then◌else◌, length,
}
use susun.IndexMap.{IndexMap, contains, insert_set, get, insert}
use susun.Plan.{ActionId, PlanActionNode}
use susun.Kahn.{dependents_of}

pub record RuntimeGraph : Type 0 where
  pub dependents : IndexMap ActionId (List ActionId)
  pub remaining_dependencies : IndexMap ActionId ℕ

-- `dependents.entry(id).or_insert_with(IndexSet::new)`
unfoldable pub enter : ActionId → RuntimeGraph → RuntimeGraph
enter id g = record g { dependents = insert id (dependents_of g.dependents id) g.dependents }

-- `dependents.entry(dependency).or_insert_with(IndexSet::new).insert(id)`
unfoldable pub add_edge : (dependency id : ActionId) → RuntimeGraph → RuntimeGraph
add_edge dependency id g = record g {
  dependents =
      insert dependency (insert_set id (dependents_of g.dependents dependency)) g.dependents;
}

unfoldable pub add_edges :
    (dependencies : List ActionId) (id : ActionId) → RuntimeGraph → RuntimeGraph
unfolding add_edge
add_edges [] id g = g
add_edges (d ∷ dependencies) id g = add_edges dependencies id (add_edge d id g)

unfoldable pub add_nodes : IndexMap ActionId PlanActionNode → RuntimeGraph → RuntimeGraph
unfolding enter add_edges
add_nodes [] g = g
add_nodes ((id, node) ∷ actions) g =
    let g' = enter id g in
    add_nodes actions (
      add_edges node.dependencies id (record g' {
        remaining_dependencies = insert id (length node.dependencies) g'.remaining_dependencies;
      }))

-- `RuntimeGraph::new`
unfoldable pub new_graph : IndexMap ActionId PlanActionNode → RuntimeGraph
unfolding add_nodes
new_graph actions = add_nodes actions (record { dependents = []; remaining_dependencies = [] })

-- The `for` loop of `release_dependents`. `saturating_sub` is `-` on ℕ.
unfoldable pub release_all :
    List ActionId
    → (completed ready : List ActionId) → (remaining : IndexMap ActionId ℕ)
    → List ActionId × IndexMap ActionId ℕ
release_all [] completed ready remaining = (ready, remaining)
release_all (d ∷ dependents) completed ready remaining = elim (get remaining d) [
  | none ↦ release_all dependents completed ready remaining
  | some count ↦
      release_all dependents completed
        (if count - 1 == 0 && not (contains completed d) then ready ++ d ∷ [] else ready)
        (insert d (count - 1) remaining)
]
