-- ===== src/Kahn/Run.antt =====
-- The whole loop in Kahn, and its result.
use mathlib.Core.List.{append_assoc, append-nil}
use susun.Prelude.{
  ℕ, zero, suc, ◌+◌, ◌-◌, ◌≤◌, ◌<◌, ◌≡◌, ◌↔◌, refl, true, false, some, List, [], ◌∷◌, ◌++◌, arith,
  Eq, ◌=?◌, =?_refl, ◌==◌, if◌then◌else◌, ◌⊎◌, inl, inr, Bool-cases, length, length-append,
}
use susun.IndexMap.{IndexMap, contains, IsDistinct, IsDistinct-length-le}
use susun.Kahn.{drain}
use susun.Kahn.Counting.{depends, open_count, exists_of_open_count}
use susun.Kahn.Invariant.{contains-middle, IsOrdered, IsGraph, Inv}
use susun.Kahn.Round.{round-Inv}

module _ {K : Type 0} ⦃e : Eq K⦄ where
  -- `rank` puts every node behind the nodes that it depends on, so the graph has no cycle.
  abbrev pub IsRanked : IndexMap K (List K) → List K → (K → ℕ) → Type 0
  IsRanked edges nodes rank =
      (k u : K)
      → contains nodes k ≡ true
      → contains nodes u ≡ true
      → depends edges k u ≡ true
      → rank u < rank k

  -- The position of an element.
  unfoldable pub index : List K → K → ℕ
  index [] k = 0
  index (x ∷ xs) k = if x =? k then 0 else suc (index xs k)

  index-append_left :
      (xs ys : List K) (k : K) → contains xs k ≡ true → index (xs ++ ys) k < length xs
  unfolding index contains
  index-append_left [] ys k h = ground arith
  index-append_left (x ∷ xs) ys k h = ground (arith, index-append_left xs ys k)

  le-index : (xs ys : List K) (k : K) → contains xs k ≡ false → length xs ≤ index (xs ++ ys) k
  unfolding index contains
  le-index [] ys k h = ground arith
  le-index (x ∷ xs) ys k h = ground (arith, le-index xs ys k)

  index_lt :
      (edges : IndexMap K (List K)) (nodes seen ks : List K) (k u : K)
      → IsOrdered edges nodes seen ks
      → contains nodes u ≡ true
      → depends edges k u ≡ true
      → IsDistinct (seen ++ ks)
      → contains ks k ≡ true
      → index (seen ++ ks) u < index (seen ++ ks) k
  unfolding contains
  index_lt edges nodes seen [] k u o mu dep d m = ground arith
  index_lt edges nodes seen (x ∷ ks) k u o mu dep d m = elim (Bool-cases (x =? k)) [
    | inl here ↦
        let same : x ≡ k = (e.beq_iff x k).0 here in
        omega (
          arith,
          index-append_left seen (x ∷ ks) u (o.0 u mu (rw same dep)),
          le-index seen (x ∷ ks) k (rw same at (contains-middle seen ks x d)),
        )
    | inr later ↦
        rw append_assoc at (
          index_lt edges nodes (seen ++ x ∷ []) ks k u o.1 mu dep (rw append_assoc d)
            (ground arith))
  ]

module _ {K : Type 0} ⦃e : Eq K⦄ (edges : IndexMap K (List K)) (nodes : List K)
    (g : IsGraph edges nodes) where
  -- What holds when the queue is empty.
  pub record Ends (order : List K) : Type 0 where
    pub indegree : IndexMap K ℕ
    pub inv : Inv edges nodes [] indegree order

  pub drain_total :
      (fuel : ℕ) (ready : List K) (indegree : IndexMap K ℕ) (order : List K)
      → Inv edges nodes ready indegree order
      → length nodes ≤ fuel + length order
      → (r : List K) × (drain fuel edges ready indegree order ≡ some r) × Ends r
  unfolding drain
  drain_total fuel [] indegree order inv enough =
      (order, refl, record { indegree = indegree; inv = inv })
  drain_total zero (k ∷ ready) indegree order inv enough = absurd (
      omega (
        arith,
        IsDistinct-length-le (order ++ k ∷ ready) nodes inv.queue_distinct inv.queue_nodes,
        length-append order (k ∷ ready),
      ))
  drain_total (suc fuel) (k ∷ ready) indegree order inv enough =
      drain_total fuel _ _ (order ++ k ∷ []) (round-Inv edges nodes g k ready indegree order inv)
        (omega (arith, length-append order (k ∷ [])))

  all_or_missing :
      (order xs : List K)
      → ((k : K) → contains xs k ≡ true → contains order k ≡ true)
        ⊎ ((k : K) × (contains xs k ≡ true) × (contains order k ≡ false))
  unfolding contains
  all_or_missing order [] = inl (λ k m. ground arith)
  all_or_missing order (x ∷ xs) = elim (Bool-cases (contains order x)) [
    | inl has ↦ elim (all_or_missing order xs) [
      | inl every ↦ inl (λ k m. ground (arith, e.beq_iff x k, every k))
      | inr (k, m, miss) ↦ inr (k, ground arith, miss)
    ]
    | inr miss ↦ inr (x, ground (arith, =?_refl x), miss)
  ]

  module _ (order : List K) (ends : Ends order) where
    pub order-IsDistinct : IsDistinct order
    order-IsDistinct = rw (← append-nil order) ends.inv.queue_distinct

    pub order_nodes : (k : K) → contains order k ≡ true → contains nodes k ≡ true
    order_nodes k m = ends.inv.queue_nodes k (rw append-nil m)

    order_queued :
        (k : K) → contains nodes k ≡ true → contains order k ≡ (open_count edges k order nodes == 0)
    order_queued k m = rw append-nil at (ends.inv.queued k m)

    -- All nodes are in the result exactly if it has as many elements as there are nodes.
    pub complete_iff :
        (length order ≡ length nodes)
        ↔ ((k : K) → contains nodes k ≡ true → contains order k ≡ true)
    unfolding contains
    complete_iff = (
      λ same k m. elim (Bool-cases (contains order k)) [
        | inl has ↦ has
        | inr miss ↦ absurd (
            omega (
              arith,
              IsDistinct-length-le (k ∷ order) nodes (miss, order-IsDistinct)
                  (λ j has. ground (arith, order_nodes j, e.beq_iff k j, m)),
            ))
      ],
      λ every. omega (
        arith,
        IsDistinct-length-le order nodes order-IsDistinct order_nodes,
        IsDistinct-length-le nodes order g.distinct every,
      ),
    )

    -- A node that is left over waits for a node that is left over.
    stuck :
        (k : K)
        → contains nodes k ≡ true
        → contains order k ≡ false
        → (u : K) × (contains nodes u ≡ true)
          × (contains order u ≡ false)
          × (depends edges k u ≡ true)
    stuck k m miss =
        exists_of_open_count edges k order nodes (open_count edges k order nodes - 1)
          (ground (arith, order_queued k m))

    not_missing :
        (rank : K → ℕ)
        → IsRanked edges nodes rank
        → (n : ℕ) (k : K) → rank k < n
        → contains nodes k ≡ true
        → contains order k ≡ false
        → ⊥
    not_missing rank ranked zero k small m miss = absurd (omega arith)
    not_missing rank ranked (suc n) k small m miss =
        let (u, mu, missu, dep) = stuck k m miss in
        not_missing rank ranked n u (omega (arith, ranked k u m mu dep)) mu missu

    -- Without a cycle every node is reached.
    pub complete_of_ranked :
        (rank : K → ℕ) → IsRanked edges nodes rank → length order ≡ length nodes
    complete_of_ranked rank ranked = complete_iff.1 λ k m. elim (Bool-cases (contains order k)) [
      | inl has ↦ has
      | inr miss ↦ absurd (not_missing rank ranked (suc (rank k)) k (omega arith) m miss)
    ]

    -- The positions in a complete result are a rank.
    pub IsRanked-of_complete : length order ≡ length nodes → IsRanked edges nodes (index order)
    IsRanked-of_complete same k u m mu dep =
        index_lt edges nodes [] order k u ends.inv.ordered mu dep order-IsDistinct
          (complete_iff.0 same k m)
