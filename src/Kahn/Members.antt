-- ===== src/Kahn/Members.antt =====
-- Counting the dependencies of a node by its list of dependencies.
use susun.Prelude.{
  ℕ, suc, ◌+◌, ◌≡◌, refl, ◌∙◌, true, false, List, [], ◌∷◌, arith, Eq, =?_refl, length,
}
use susun.IndexMap.{IndexMap, contains, IsDistinct}
use susun.Kahn.Counting.{bit, depends, open_count}

module _ {K : Type 0} ⦃e : Eq K⦄ where
  -- How many of `nodes` are in `deps`.
  member_count : (nodes deps : List K) → ℕ
  member_count [] deps = 0
  member_count (u ∷ nodes) deps = bit (contains deps u) + member_count nodes deps

  member_count-absent :
      (nodes : List K) (d : K) (deps : List K)
      → contains nodes d ≡ false
      → member_count nodes (d ∷ deps) ≡ member_count nodes deps
  unfolding member_count contains
  member_count-absent [] d deps h = refl
  member_count-absent (u ∷ nodes) d deps h =
      ground (arith, member_count-absent nodes d deps, e.beq_iff u d, e.beq_iff d u)

  member_count-cons :
      (nodes : List K) (d : K) (deps : List K)
      → IsDistinct nodes
      → contains nodes d ≡ true
      → contains deps d ≡ false
      → member_count nodes (d ∷ deps) ≡ suc (member_count nodes deps)
  unfolding member_count contains
  member_count-cons [] d deps distinct h new = ground arith
  member_count-cons (u ∷ nodes) d deps distinct h new = ground (
    arith,
    member_count-absent nodes d deps,
    member_count-cons nodes d deps distinct.1,
    e.beq_iff u d,
    e.beq_iff d u,
    distinct.0,
  )

  member_count-nil : (nodes : List K) → member_count nodes [] ≡ 0
  unfolding member_count contains
  member_count-nil [] = refl
  member_count-nil (u ∷ nodes) = omega (arith, member_count-nil nodes)

  open_count-member_count :
      (edges : IndexMap K (List K)) (v : K) (nodes deps : List K)
      → ((u : K) → depends edges v u ≡ contains deps u)
      → open_count edges v [] nodes ≡ member_count nodes deps
  unfolding open_count member_count contains
  open_count-member_count edges v [] deps same = refl
  open_count-member_count edges v (u ∷ nodes) deps same =
      ground (arith, open_count-member_count edges v nodes deps same, same u)

  member_count-length :
      (nodes deps : List K)
      → IsDistinct nodes
      → IsDistinct deps
      → ((d : K) → contains deps d ≡ true → contains nodes d ≡ true)
      → member_count nodes deps ≡ length deps
  unfolding contains
  member_count-length nodes [] dn dd sub = member_count-nil nodes
  member_count-length nodes (d ∷ deps) dn dd sub = omega (
    arith,
    member_count-cons nodes d deps dn (sub d (ground (arith, =?_refl d))) dd.0,
    member_count-length nodes deps dn dd.1 (λ k m. sub k (ground arith)),
  )

  -- The number of open dependencies at the start is the number of dependencies.
  pub open_count-length :
      (edges : IndexMap K (List K)) (v : K) (nodes deps : List K)
      → IsDistinct nodes
      → IsDistinct deps
      → ((d : K) → contains deps d ≡ true → contains nodes d ≡ true)
      → ((u : K) → depends edges v u ≡ contains deps u)
      → open_count edges v [] nodes ≡ length deps
  open_count-length edges v nodes deps dn dd sub same =
      open_count-member_count edges v nodes deps same ∙ member_count-length nodes deps dn dd sub
