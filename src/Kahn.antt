-- ===== src/Kahn.antt =====
-- The loop of Kahn's algorithm, which the program has twice, word for word:
-- crates/susun-graph/src/lib.rs (services) and crates/susun-planner/src/dag.rs (actions).
-- `edges` holds the dependents of each node, `indegree` the number of its open dependencies.
pub mod Counting
pub mod Releasing
pub mod Invariant
pub mod Round
pub mod Run
pub mod Start
pub mod Members
pub mod Anywhere
use susun.Prelude.{
  ℕ, zero, suc, ◌-◌, Bool, Option, none, some, List, [], ◌∷◌, ◌++◌, Eq, ◌==◌, if◌then◌else◌,
}
use susun.IndexMap.{IndexMap, get, insert}

module _ {K : Type 0} ⦃e : Eq K⦄ where
  -- The `for` loop over the dependents of the node that was taken. `saturating_sub` is `-` on ℕ.
  unfoldable pub release :
      List K → (ready : List K) → (indegree : IndexMap K ℕ) → List K × IndexMap K ℕ
  release [] ready indegree = (ready, indegree)
  release (d ∷ dependents) ready indegree = elim (get indegree d) [
    | none ↦ release dependents ready indegree
    | some count ↦
        release dependents (if count - 1 == 0 then ready ++ d ∷ [] else ready)
          (insert d (count - 1) indegree)
  ]

  -- `let Some(dependents) = edges.get(&id) else { continue };`
  abbrev pub dependents_of : IndexMap K (List K) → K → List K
  dependents_of edges k = elim (get edges k) [ none ↦ [] | some ds ↦ ds ]

  -- The `while` loop, on fuel: `none` when the fuel runs out.
  unfoldable pub drain :
      (fuel : ℕ) (edges : IndexMap K (List K)) (ready : List K) (indegree : IndexMap K ℕ)
      → (order : List K) → Option (List K)
  unfolding release
  drain fuel edges [] indegree order = some order
  drain zero edges (k ∷ ready) indegree order = none
  drain (suc fuel) edges (k ∷ ready) indegree order =
      let (ready', indegree') = release (dependents_of edges k) ready indegree in
      drain fuel edges ready' indegree' (order ++ k ∷ [])

  -- `indegree.get(k).copied().unwrap_or(0)`
  abbrev pub degree : IndexMap K ℕ → K → ℕ
  degree indegree k = elim (get indegree k) [ none ↦ 0 | some n ↦ n ]

  -- The nodes that the loop starts with.
  unfoldable pub ready_nodes : IndexMap K ℕ → List K → List K
  ready_nodes indegree [] = []
  ready_nodes indegree (k ∷ nodes) =
      if degree indegree k == 0 then k ∷ ready_nodes indegree nodes else ready_nodes indegree nodes
