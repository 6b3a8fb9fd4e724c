-- ===== src/Kahn/Start.antt =====
-- The state in front of the first round.
use susun.Prelude.{ℕ, ◌≡◌, refl, true, ◌&&◌, some, List, [], ◌∷◌, arith, Eq, ◌==◌}
use susun.IndexMap.{IndexMap, contains, IsDistinct, get}
use susun.Kahn.{degree, ready_nodes}
use susun.Kahn.Counting.{open_count}
use susun.Kahn.Invariant.{IsGraph, Inv}

module _ {K : Type 0} ⦃e : Eq K⦄ where
  pub contains-ready_nodes :
      (indegree : IndexMap K ℕ) (nodes : List K) (k : K)
      → contains (ready_nodes indegree nodes) k ≡ (contains nodes k && degree indegree k == 0)
  unfolding ready_nodes contains
  contains-ready_nodes indegree [] k = refl
  contains-ready_nodes indegree (x ∷ nodes) k =
      ground (arith, contains-ready_nodes indegree nodes k, e.beq_iff x k)

  pub IsDistinct-ready_nodes :
      (indegree : IndexMap K ℕ) (nodes : List K)
      → IsDistinct nodes
      → IsDistinct (ready_nodes indegree nodes)
  unfolding ready_nodes contains
  IsDistinct-ready_nodes indegree [] d = tt
  IsDistinct-ready_nodes indegree (x ∷ nodes) d =
      ground (
        arith,
        IsDistinct-ready_nodes indegree nodes d.1,
        contains-ready_nodes indegree nodes x,
        d.0,
      )

  -- The invariant holds at the start, if the table holds the number of dependencies of each node.
  pub start-Inv :
      (edges : IndexMap K (List K)) (nodes : List K) (indegree : IndexMap K ℕ)
      → IsGraph edges nodes
      → ((k : K) → contains nodes k ≡ true → get indegree k ≡ some (open_count edges k [] nodes))
      → Inv edges nodes (ready_nodes indegree nodes) indegree []
  start-Inv edges nodes indegree g counted = record {
    queue_distinct = IsDistinct-ready_nodes indegree nodes g.distinct;
    queue_nodes = λ k m. ground (arith, contains-ready_nodes indegree nodes k);
    degrees = counted;
    queued = λ k m. ground (arith, contains-ready_nodes indegree nodes k, counted k m);
    ordered = tt;
  }
