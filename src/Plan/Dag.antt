-- ===== src/Plan/Dag.antt =====
-- crates/susun-planner/src/dag.rs: validation of the actions' dependencies, and their order.
pub mod Filled
pub mod Accepted
pub mod Correct
mod Examples
use susun.Prelude.{
  ℕ, Bool, true, false, not, ◌||◌, Option, none, some, List, [], ◌∷◌, ◌++◌, Text, text, Eq, ◌=?◌,
  list_eq, nat_eq, ◌==◌, if◌then◌else◌, length,
}
use susun.IndexMap.{IndexMap, contains, insert_set, get, insert, keys, contains_key}
use susun.Plan.{
  ActionId, PlanActionNode, PlanError, invariant_violation, invalid_dependency_reference,
}
use susun.Kahn.{drain, degree, dependents_of, ready_nodes}

pub data PlanResult {ℓ} (A : Type ℓ) : Type ℓ where
  ok : A → PlanResult A
  err : PlanError → PlanResult A

infixl 5 ◌>>=◌
abbrev pub ◌>>=◌ {ℓ κ} :
    {A : Type ℓ} {B : Type κ} → PlanResult A → (A → PlanResult B) → PlanResult B
ok a >>= f = f a
err e >>= f = err e

-- The two tables that the loop fills.
pub record DagTables : Type 0 where
  pub dependents : IndexMap ActionId (List ActionId)
  pub indegree : IndexMap ActionId ℕ

-- `dependents.entry(k).or_default().insert(id)`
unfoldable pub add_dependent : (dependency id : ActionId) → DagTables → DagTables
add_dependent dependency id t = record t {
  dependents =
      insert dependency (insert_set id (dependents_of t.dependents dependency)) t.dependents;
}

-- `dependents.entry(id).or_default()`
unfoldable pub add_entry : ActionId → DagTables → DagTables
add_entry id t = record t { dependents = insert id (dependents_of t.dependents id) t.dependents }

-- The inner loop, over the dependencies of the action `id`.
unfoldable pub check_dependencies :
    (actions : IndexMap ActionId PlanActionNode) (id : ActionId) (dependencies : List ActionId)
    → DagTables
    → PlanResult DagTables
unfolding add_dependent
check_dependencies actions id [] t = ok t
check_dependencies actions id (d ∷ dependencies) t =
    if d =? id
    then err (invariant_violation (text "action " ++ (id ++ text " depends on itself")))
    else if not (contains_key actions d)
    then err (invalid_dependency_reference id d)
    else check_dependencies actions id dependencies (add_dependent d id t)

-- The outer loop, over the actions that are left.
unfoldable pub check_actions :
    (actions todo : IndexMap ActionId PlanActionNode) → DagTables → PlanResult DagTables
unfolding check_dependencies add_entry
check_actions actions [] t = ok t
check_actions actions ((id, node) ∷ todo) t =
    if not (id =? node.id)
    then err (
        invariant_violation
          (text "action key " ++ (id ++ (text " does not match node id " ++ node.id))))
    else do
      t' ←
          check_dependencies actions id node.dependencies
            (add_entry id (record t { indegree = insert id (length node.dependencies) t.indegree }))
      check_actions actions todo t'

-- `ordered.len() != actions.len()`
abbrev pub conclude : (count : ℕ) → Option (List ActionId) → Option (PlanResult (List ActionId))
conclude count none = none
conclude count (some ordered) =
    if length ordered == count
    then some (ok ordered)
    else some (err (invariant_violation (text "action graph contains a cycle")))

-- `none` stands for a loop that does not end.
unfoldable pub order_checked :
    IndexMap ActionId PlanActionNode → PlanResult DagTables → Option (PlanResult (List ActionId))
unfolding drain ready_nodes
order_checked actions (err e) = some (err e)
order_checked actions (ok t) =
    conclude (length actions)
      (drain (length actions) t.dependents (ready_nodes t.indegree (keys actions)) t.indegree [])

unfoldable pub topological_action_order :
    IndexMap ActionId PlanActionNode → Option (PlanResult (List ActionId))
unfolding order_checked check_actions
topological_action_order actions =
    order_checked actions
      (check_actions actions actions (record { dependents = []; indegree = [] }))

-- `validate_action_dag` forgets the order.
unfoldable pub validate_action_dag :
    IndexMap ActionId PlanActionNode → Option (PlanResult (Unit {0}))
unfolding topological_action_order
validate_action_dag actions = elim (topological_action_order actions) [
  | none ↦ none
  | some r ↦ some (r >>= λ _. ok tt)
]
