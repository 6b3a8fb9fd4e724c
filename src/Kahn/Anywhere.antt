-- ===== src/Kahn/Anywhere.antt =====
-- The loop of Kahn with the queue in any order: a node may be taken from the middle.
use mathlib.Core.List.{append_assoc}
use mathlib.Core.Path.{subst}
use susun.Prelude.{
  ℕ, ◌-◌, ◌≡◌, refl, true, false, List, [], ◌∷◌, ◌++◌, arith, Eq, =?_refl, ◌==◌, inl, inr,
  Option-cases, Bool-cases,
}
use susun.IndexMap.{
  IndexMap, contains, contains-append, IsDistinct, IsDistinct-append, IsDistinct-left,
  IsDistinct-right, IsDistinct-apart, remove, contains-remove_eq, remove-IsDistinct, get, insert,
}
use susun.Kahn.{release, dependents_of}
use susun.Kahn.Counting.{depends, open_count-done}
use susun.Kahn.Invariant.{IsGraph, Inv}
use susun.Kahn.Round.{round-Inv}

module _ {K : Type 0} ⦃e : Eq K⦄ where
  -- The inner loop only appends to the queue.
  pub release-append :
      (ds xs ready : List K) (indegree : IndexMap K ℕ)
      → release ds (xs ++ ready) indegree
        ≡ (xs ++ (release ds ready indegree).0, (release ds ready indegree).1)
  unfolding release
  release-append [] xs ready indegree = refl
  release-append (d ∷ ds) xs ready indegree = elim (Option-cases (get indegree d)) [
    | inl free ↦ rw (free, release) (release-append ds xs ready indegree)
    | inr (n, counted) ↦ elim (Bool-cases (n - 1 == 0)) [
      | inl last ↦ ground (
        arith,
        counted,
        last,
        append_assoc xs ready (d ∷ []),
        release-append ds xs (ready ++ d ∷ []) (insert d (n - 1) indegree),
      )
      | inr more ↦
          ground (arith, counted, more, release-append ds xs ready (insert d (n - 1) indegree))
    ]
  ]

  taken_apart :
      (k : K) (running ready : List K)
      → IsDistinct (running ++ ready)
      → contains running k ≡ true
      → contains (remove k running ++ ready) k ≡ false
  taken_apart k running ready d m = ground (
    arith,
    contains-append (remove k running) ready k,
    contains-remove_eq k running k (IsDistinct-left running ready d),
    =?_refl k,
    IsDistinct-apart running ready k d m,
  )

  rest-IsDistinct :
      (k : K) (running ready : List K)
      → IsDistinct (running ++ ready)
      → IsDistinct (remove k running ++ ready)
  rest-IsDistinct k running ready d =
      IsDistinct-append (remove k running) ready
        (remove-IsDistinct k running (IsDistinct-left running ready d))
        (IsDistinct-right running ready d)
        (λ j m.
          IsDistinct-apart running ready j d
            (ground (arith, contains-remove_eq k running j (IsDistinct-left running ready d))))

  taken_same :
      (k : K) (running ready : List K) (j : K)
      → IsDistinct running
      → contains running k ≡ true
      → contains (k ∷ (remove k running ++ ready)) j ≡ contains (running ++ ready) j
  unfolding contains
  taken_same k running ready j d m = ground (
    arith,
    contains-append (remove k running) ready j,
    contains-append running ready j,
    contains-remove_eq k running j d,
    e.beq_iff k j,
  )

  module _ (edges : IndexMap K (List K)) (nodes : List K) where
    -- The invariant does not see the order of the queue.
    pub Inv-perm :
        (queue queue' : List K) (indegree : IndexMap K ℕ) (order : List K)
        → Inv edges nodes queue indegree order
        → IsDistinct queue'
        → ((k : K) → contains queue' k ≡ contains queue k)
        → Inv edges nodes queue' indegree order
    Inv-perm queue queue' indegree order inv d same = record {
      queue_distinct =
          IsDistinct-append order queue' (IsDistinct-left order queue inv.queue_distinct) d
            (λ k m. ground (arith, same k, IsDistinct-apart order queue k inv.queue_distinct m));
      queue_nodes = λ k m.
          inv.queue_nodes k
            (ground (arith, same k, contains-append order queue k, contains-append order queue' k));
      degrees = inv.degrees;
      queued = λ k m. ground (
        arith,
        inv.queued k m,
        same k,
        contains-append order queue k,
        contains-append order queue' k,
      );
      ordered = inv.ordered;
    }

    -- A node of the first part of the queue is done.
    pub take-Inv :
        (k : K) (running ready : List K) (indegree : IndexMap K ℕ) (order : List K)
        → IsGraph edges nodes
        → Inv edges nodes (running ++ ready) indegree order
        → contains running k ≡ true
        → Inv edges nodes
            (remove k running ++ (release (dependents_of edges k) ready indegree).0)
            (release (dependents_of edges k) ready indegree).1
            (order ++ k ∷ [])
    take-Inv k running ready indegree order g inv m =
        let d = IsDistinct-right order (running ++ ready) inv.queue_distinct in
        let left = IsDistinct-left running ready d in
        let step = round-Inv edges nodes g k (remove k running ++ ready) indegree order (
          Inv-perm (running ++ ready) (k ∷ (remove k running ++ ready)) indegree order inv
            (taken_apart k running ready d m, rest-IsDistinct k running ready d)
            (λ j. taken_same k running ready j left m)) in
        subst (λ p. Inv edges nodes p.0 p.1 (order ++ k ∷ []))
          (release-append (dependents_of edges k) (remove k running) ready indegree) step

    -- The first node of the second part of the queue is done.
    pub skip-Inv :
        (k : K) (running ready : List K) (indegree : IndexMap K ℕ) (order : List K)
        → IsGraph edges nodes
        → Inv edges nodes (running ++ k ∷ ready) indegree order
        → Inv edges nodes
            (running ++ (release (dependents_of edges k) ready indegree).0)
            (release (dependents_of edges k) ready indegree).1
            (order ++ k ∷ [])
    unfolding contains
    skip-Inv k running ready indegree order g inv =
        let d = IsDistinct-right order (running ++ k ∷ ready) inv.queue_distinct in
        let right = IsDistinct-right running (k ∷ ready) d in
        let step = round-Inv edges nodes g k (running ++ ready) indegree order (
          Inv-perm (running ++ k ∷ ready) (k ∷ (running ++ ready)) indegree order inv
            (
              ground (
                arith,
                contains-append running ready k,
                IsDistinct-apart running (k ∷ ready) k d,
                =?_refl k,
                right.0,
              ),
              IsDistinct-append running ready (IsDistinct-left running (k ∷ ready) d) right.1
                  (λ j m. ground (arith, IsDistinct-apart running (k ∷ ready) j d m)),
            )
            (λ j.
              ground
                (arith, contains-append running ready j, contains-append running (k ∷ ready) j))) in
        subst (λ p. Inv edges nodes p.0 p.1 (order ++ k ∷ []))
          (release-append (dependents_of edges k) running ready indegree) step

    -- What waits for a queued node is not done, nor is it that node.
    pub dependent_open :
        (k d : K) (queue : List K) (indegree : IndexMap K ℕ) (order : List K)
        → IsGraph edges nodes
        → Inv edges nodes queue indegree order
        → contains queue k ≡ true
        → depends edges d k ≡ true
        → contains (order ++ k ∷ []) d ≡ false
    unfolding contains
    dependent_open k d queue indegree order g inv m dep =
        let fresh : contains order k ≡ false = elim (Bool-cases (contains order k)) [
          | inl old ↦ absurd (ground (arith, IsDistinct-apart order queue k inv.queue_distinct old))
          | inr new ↦ new
        ] in
        ground (
          arith,
          open_count-done edges d k order nodes g.distinct
              (inv.queue_nodes k (ground (arith, contains-append order queue k))) fresh,
          inv.queued d (g.closed d k dep),
          contains-append order queue d,
          contains-append order queue k,
          contains-append order (k ∷ []) d,
          e.beq_iff k d,
        )
