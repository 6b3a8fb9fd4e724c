-- ===== src/Kahn/Counting.antt =====
-- The number of open dependencies of a node, counted from the edges.
use susun.Prelude.{
  ℕ, suc, ◌+◌, ◌≡◌, refl, ap, Bool, true, false, not, ◌&&◌, List, [], ◌∷◌, ◌++◌, arith, Eq, ◌=?◌,
  =?_refl, inl, inr, Bool-cases,
}
use susun.IndexMap.{IndexMap, contains, contains-append, IsDistinct}
use susun.Kahn.{dependents_of}

abbrev pub bit : Bool → ℕ
bit true = 1
bit false = 0

module _ {K : Type 0} ⦃e : Eq K⦄ where
  -- `v` is a dependent of `u`, which means that `v` depends on `u`.
  abbrev pub depends : IndexMap K (List K) → (v u : K) → Bool
  depends edges v u = contains (dependents_of edges u) v

  -- How many of `nodes` are not done, and have `v` for a dependent.
  unfoldable pub open_count : IndexMap K (List K) → (v : K) (done nodes : List K) → ℕ
  open_count edges v done [] = 0
  open_count edges v done (u ∷ nodes) =
      bit (not (contains done u) && depends edges v u) + open_count edges v done nodes

  -- A node outside `nodes` makes no difference.
  open_count-absent :
      (edges : IndexMap K (List K)) (v k : K) (done nodes : List K)
      → contains nodes k ≡ false
      → open_count edges v (done ++ k ∷ []) nodes ≡ open_count edges v done nodes
  unfolding open_count contains
  open_count-absent edges v k done [] h = refl
  open_count-absent edges v k done (u ∷ nodes) h = ground (
    arith,
    open_count-absent edges v k done nodes,
    contains-append done (k ∷ []) u,
    e.beq_iff u k,
    e.beq_iff k u,
  )

  -- When `k` is done, the dependents of `k` have one open dependency less.
  pub open_count-done :
      (edges : IndexMap K (List K)) (v k : K) (done nodes : List K)
      → IsDistinct nodes
      → contains nodes k ≡ true
      → contains done k ≡ false
      → open_count edges v done nodes
        ≡ open_count edges v (done ++ k ∷ []) nodes + bit (depends edges v k)
  unfolding open_count contains
  open_count-done edges v k done [] d h n = ground arith
  open_count-done edges v k done (u ∷ nodes) d h n = elim (Bool-cases (u =? k)) [
    | inl same ↦ ground (
      arith,
      open_count-absent edges v k done nodes,
      contains-append done (k ∷ []) u,
      e.beq_iff u k,
      =?_refl k,
      d.0,
    )
    | inr other ↦ ground (
      arith,
      open_count-done edges v k done nodes d.1,
      contains-append done (k ∷ []) u,
      e.beq_iff u k,
      e.beq_iff k u,
    )
  ]

  -- No open dependency: every node that `v` depends on is done.
  pub done_of_open_count :
      (edges : IndexMap K (List K)) (v u : K) (done nodes : List K)
      → open_count edges v done nodes ≡ 0
      → contains nodes u ≡ true
      → depends edges v u ≡ true
      → contains done u ≡ true
  unfolding open_count contains
  done_of_open_count edges v u done [] z m dep = ground arith
  done_of_open_count edges v u done (w ∷ nodes) z m dep =
      ground (arith, done_of_open_count edges v u done nodes, e.beq_iff w u)

  -- An open dependency is one of the nodes.
  pub exists_of_open_count :
      (edges : IndexMap K (List K)) (v : K) (done nodes : List K) (n : ℕ)
      → open_count edges v done nodes ≡ suc n
      → (u : K) × (contains nodes u ≡ true) × (contains done u ≡ false) × (depends edges v u ≡ true)
  unfolding open_count contains
  exists_of_open_count edges v done [] n h = absurd (omega arith)
  exists_of_open_count edges v done (w ∷ nodes) n h =
      elim (Bool-cases (not (contains done w) && depends edges v w)) [
        | inl here ↦ (w, ground (arith, =?_refl w), ground arith, ground arith)
        | inr later ↦
            let (u, m, o, d) =
              exists_of_open_count edges v done nodes n (omega (arith, ap bit later)) in
            (u, ground arith, o, d)
      ]
