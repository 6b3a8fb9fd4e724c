-- ===== src/Kahn/Releasing.antt =====
-- What the inner loop does to the degrees and to the queue.
use mathlib.Core.List.{append_assoc, append-nil}
use susun.Prelude.{
  ℕ, ◌-◌, ◌≡◌, refl, sym, false, ◌&&◌, some, List, [], ◌∷◌, ◌++◌, arith, Eq, ◌==◌, if◌then◌else◌,
  inl, inr, Option-cases,
}
use susun.IndexMap.{IndexMap, contains, IsDistinct, get, insert, get-insert}
use susun.Kahn.{release, degree}
use susun.Kahn.Counting.{bit}

module _ {K : Type 0} ⦃e : Eq K⦄ where
  -- The dependents that become ready.
  pub freed : IndexMap K ℕ → List K → List K
  freed indegree [] = []
  freed indegree (d ∷ ds) =
      if degree indegree d - 1 == 0 then d ∷ freed indegree ds else freed indegree ds

  freed-insert :
      (indegree : IndexMap K ℕ) (d : K) (n : ℕ) (ds : List K)
      → contains ds d ≡ false
      → freed (insert d n indegree) ds ≡ freed indegree ds
  unfolding freed contains
  freed-insert indegree d n [] h = refl
  freed-insert indegree d n (x ∷ ds) h =
      ground (
        arith,
        freed-insert indegree d n ds,
        get-insert indegree d x n,
        e.beq_iff d x,
        e.beq_iff x d,
      )

  -- Every node has an entry.
  abbrev pub HasDegrees : IndexMap K ℕ → List K → Type 0
  HasDegrees indegree [] = Unit
  HasDegrees indegree (d ∷ ds) =
      (get indegree d ≡ some (degree indegree d)) × HasDegrees indegree ds

  HasDegrees-insert :
      (indegree : IndexMap K ℕ) (k : K) (n : ℕ) (ds : List K)
      → HasDegrees indegree ds
      → HasDegrees (insert k n indegree) ds
  HasDegrees-insert indegree k n [] h = tt
  HasDegrees-insert indegree k n (d ∷ ds) h =
      (ground (arith, get-insert indegree k d n, h.0), HasDegrees-insert indegree k n ds h.1)

  pub release-ready :
      (ds ready : List K) (indegree : IndexMap K ℕ)
      → IsDistinct ds
      → HasDegrees indegree ds
      → (release ds ready indegree).0 ≡ ready ++ freed indegree ds
  unfolding release freed
  release-ready [] ready indegree d h = sym (append-nil ready)
  release-ready (x ∷ ds) ready indegree d h =
      let count = degree indegree x - 1 in
      let queue = if count == 0 then ready ++ x ∷ [] else ready in
      let rest = HasDegrees-insert indegree x count ds h.1 in
      rw (h.0, release)
        (ground (
          arith,
          release-ready ds queue (insert x count indegree) d.1 rest,
          freed-insert indegree x count ds d.0,
          append_assoc ready (x ∷ []) (freed indegree ds),
        ))

  -- The degree of each dependent falls by one, and nothing else changes.
  pub get-release :
      (ds ready : List K) (indegree : IndexMap K ℕ) (v : K) (n : ℕ)
      → IsDistinct ds
      → get indegree v ≡ some n
      → get (release ds ready indegree).1 v ≡ some (n - bit (contains ds v))
  unfolding release contains
  get-release [] ready indegree v n d h = ground arith
  get-release (x ∷ ds) ready indegree v n d h = elim (Option-cases (get indegree x)) [
    | inl e' ↦
        rw (e', release) (ground (arith, get-release ds ready indegree v n d.1, e.beq_iff x v))
    | inr (m, e') ↦
        let queue = if m - 1 == 0 then ready ++ x ∷ [] else ready in
        rw (e', release)
          (ground (
            arith,
            get-release ds queue (insert x (m - 1) indegree) v n d.1,
            get-release ds queue (insert x (m - 1) indegree) v (m - 1) d.1,
            get-insert indegree x v (m - 1),
            e.beq_iff x v,
            d.0,
          ))
  ]

  -- What becomes ready had one open dependency.
  pub contains-freed :
      (indegree : IndexMap K ℕ) (ds : List K) (v : K)
      → contains (freed indegree ds) v ≡ (contains ds v && degree indegree v - 1 == 0)
  unfolding freed contains
  contains-freed indegree [] v = refl
  contains-freed indegree (d ∷ ds) v = ground (arith, contains-freed indegree ds v, e.beq_iff d v)

  pub IsDistinct-freed :
      (indegree : IndexMap K ℕ) (ds : List K) → IsDistinct ds → IsDistinct (freed indegree ds)
  unfolding freed contains
  IsDistinct-freed indegree [] d = tt
  IsDistinct-freed indegree (x ∷ ds) d =
      ground (arith, IsDistinct-freed indegree ds d.1, contains-freed indegree ds x, d.0)
