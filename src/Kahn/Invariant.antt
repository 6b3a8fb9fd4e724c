-- ===== src/Kahn/Invariant.antt =====
-- The invariant of the loop in Kahn.
use mathlib.Core.List.{append_assoc, append-nil}
use susun.Prelude.{ℕ, ◌≡◌, refl, true, false, some, List, [], ◌∷◌, ◌++◌, arith, Eq, =?_refl, ◌==◌}
use susun.IndexMap.{IndexMap, contains, contains-append, IsDistinct, get}
use susun.Kahn.{degree, dependents_of}
use susun.Kahn.Counting.{depends, open_count}
use susun.Kahn.Releasing.{HasDegrees}

module _ {K : Type 0} ⦃e : Eq K⦄ where
  -- Each node stands behind all nodes that it depends on; `seen` stands in front of the list.
  abbrev pub IsOrdered : IndexMap K (List K) → (nodes seen : List K) → List K → Type 0
  IsOrdered edges nodes seen [] = Unit
  IsOrdered edges nodes seen (k ∷ ks) =
      ((u : K) → contains nodes u ≡ true → depends edges k u ≡ true → contains seen u ≡ true)
      × IsOrdered edges nodes (seen ++ k ∷ []) ks

  pub IsOrdered-snoc :
      (edges : IndexMap K (List K)) (nodes seen ks : List K) (k : K)
      → IsOrdered edges nodes seen ks
      → ((u : K)
          → contains nodes u ≡ true
          → depends edges k u ≡ true
          → contains (seen ++ ks) u ≡ true)
      → IsOrdered edges nodes seen (ks ++ k ∷ [])
  IsOrdered-snoc edges nodes seen [] k h last = ((λ u m d. rw (← append-nil seen) (last u m d)), tt)
  IsOrdered-snoc edges nodes seen (x ∷ ks) k h last = (
    h.0,
    IsOrdered-snoc edges nodes (seen ++ x ∷ []) ks k h.1 (λ u m d. rw append_assoc (last u m d)),
  )

  -- Edges between the nodes only, and each once.
  pub record IsGraph (edges : IndexMap K (List K)) (nodes : List K) : Type 0 where
    pub distinct : IsDistinct nodes
    pub simple : (u : K) → IsDistinct (dependents_of edges u)
    pub closed : (v u : K) → depends edges v u ≡ true → contains nodes v ≡ true

  pub contains-middle : (xs ys : List K) (k : K) → IsDistinct (xs ++ k ∷ ys) → contains xs k ≡ false
  unfolding contains
  contains-middle [] ys k d = refl
  contains-middle (x ∷ xs) ys k d = ground (
    arith,
    contains-middle xs ys k d.1,
    contains-append xs (k ∷ ys) x,
    d.0,
    e.beq_iff x k,
    =?_refl k,
  )

  pub HasDegrees-of :
      (indegree : IndexMap K ℕ) (ds : List K)
      → ((d : K) → contains ds d ≡ true → get indegree d ≡ some (degree indegree d))
      → HasDegrees indegree ds
  unfolding contains
  HasDegrees-of indegree [] h = tt
  HasDegrees-of indegree (d ∷ ds) h =
      (h d (ground (arith, =?_refl d)), HasDegrees-of indegree ds (λ x m. h x (ground arith)))

  module _ (edges : IndexMap K (List K)) (nodes : List K) where
    pub record Inv (ready : List K) (indegree : IndexMap K ℕ) (order : List K) : Type 0 where
      pub queue_distinct : IsDistinct (order ++ ready)
      pub queue_nodes : (k : K) → contains (order ++ ready) k ≡ true → contains nodes k ≡ true
      pub degrees :
          (k : K) → contains nodes k ≡ true → get indegree k ≡ some (open_count edges k order nodes)
      pub queued :
          (k : K)
          → contains nodes k ≡ true
          → contains (order ++ ready) k ≡ (open_count edges k order nodes == 0)
      pub ordered : IsOrdered edges nodes [] order
