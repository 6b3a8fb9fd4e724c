-- ===== src/Graph/Edges.antt =====
-- crates/susun-graph/src/lib.rs: one step of the loop that fills the tables.
use susun.Prelude.{
  ◌+◌, ◌≡◌, refl, Bool, true, false, not, ◌&&◌, ◌||◌, some, List, [], ◌∷◌, arith, Eq, ◌=?◌, =?_refl,
  list_eq, nat_eq, if◌then◌else◌, Bool-cases, inl, inr,
}
use susun.IndexMap.{
  IndexMap, contains, contains-insert_set, insert_set, IsDistinct, IsDistinct-insert_set, get,
  insert, get-insert,
}
use susun.Kahn.{degree, dependents_of}
use susun.Kahn.Counting.{depends, open_count, bit}
use susun.Graph.{Tables, add_dependency}

module _ {K : Type 0} ⦃e : Eq K⦄ where
  -- What the loops keep about the tables.
  pub record Counts (active : List K) (t : Tables K) : Type 0 where
    pub has_edges :
        (k : K) → contains active k ≡ true → get t.edges k ≡ some (dependents_of t.edges k)
    pub counted :
        (k : K)
        → contains active k ≡ true
        → get t.indegree k ≡ some (open_count t.edges k [] active)
    pub simple : (u : K) → IsDistinct (dependents_of t.edges u)

  -- The edges with one more: `service` depends on `dep`.
  abbrev extended : IndexMap K (List K) → (dep service : K) → IndexMap K (List K)
  extended edges dep service = insert dep (insert_set service (dependents_of edges dep)) edges

  module _ (edges : IndexMap K (List K)) (dep service : K) where
    depends-extended :
        (v u : K)
        → depends (extended edges dep service) v u
          ≡ (depends edges v u || ((dep =? u) && (service =? v)))
    depends-extended v u = ground (
      arith,
      get-insert edges dep u (insert_set service (dependents_of edges dep)),
      contains-insert_set service (dependents_of edges dep) v,
      e.beq_iff dep u,
    )

    open_count-extended_absent :
        (v : K) (nodes : List K)
        → contains nodes dep ≡ false
        → open_count (extended edges dep service) v [] nodes ≡ open_count edges v [] nodes
    unfolding open_count contains
    open_count-extended_absent v [] h = refl
    open_count-extended_absent v (u ∷ nodes) h = ground (
      arith,
      open_count-extended_absent v nodes,
      depends-extended v u,
      e.beq_iff dep u,
      e.beq_iff u dep,
    )

    open_count-extended :
        (v : K) (nodes : List K)
        → IsDistinct nodes
        → contains nodes dep ≡ true
        → depends edges service dep ≡ false
        → open_count (extended edges dep service) v [] nodes
          ≡ open_count edges v [] nodes + bit (service =? v)
    unfolding open_count contains
    open_count-extended v [] d h n = ground arith
    open_count-extended v (u ∷ nodes) d h n = elim (Bool-cases (u =? dep)) [
      | inl here ↦ ground (
        arith,
        open_count-extended_absent v nodes,
        depends-extended v u,
        e.beq_iff u dep,
        =?_refl dep,
        e.beq_iff service v,
        d.0,
      )
      | inr later ↦ ground (
        arith,
        open_count-extended v nodes d.1,
        depends-extended v u,
        e.beq_iff u dep,
        e.beq_iff dep u,
      )
    ]

  -- One key of `depends_on`.
  module _ (active : List K) (distinct : IsDistinct active) (service dep : K)
      (listed : contains active service ≡ true) (t : Tables K) (c : Counts active t) where
    abbrev added : Tables K
    added = add_dependency active service dep t

    -- The tables with the edge put in.
    abbrev grown : Tables K
    grown = record {
      edges = extended t.edges dep service;
      indegree = insert service (degree t.indegree service + 1) t.indegree;
    }

    -- The edge is new, and it ends at an active service.
    abbrev is_new : Bool
    is_new = contains active dep && not (depends t.edges service dep)

    added_eq : added ≡ (if is_new then grown else t)
    unfolding add_dependency
    added_eq = elim (Bool-cases (contains active dep)) [
      | inl here ↦ rw (here, c.has_edges dep here) (ground arith)
      | inr other ↦ rw other
    ]

    pub depends-add_dependency :
        (v u : K)
        → depends added.edges v u
          ≡ (depends t.edges v u || ((service =? v) && ((dep =? u) && contains active dep)))
    depends-add_dependency v u = rw added_eq (
        ground
          (arith, depends-extended t.edges dep service v u, e.beq_iff service v, e.beq_iff dep u))

    grown-Counts :
        contains active dep ≡ true → depends t.edges service dep ≡ false → Counts active grown
    grown-Counts here new = record {
      has_edges = λ k m. ground (
        arith,
        c.has_edges k m,
        get-insert t.edges dep k (insert_set service (dependents_of t.edges dep)),
      );
      counted = λ k m. ground (
        arith,
        c.counted k m,
        c.counted service listed,
        get-insert t.indegree service k (degree t.indegree service + 1),
        open_count-extended t.edges dep service k active distinct here new,
        e.beq_iff service k,
      );
      simple = λ u. ground (
        arith,
        c.simple u,
        IsDistinct-insert_set service (dependents_of t.edges dep) (c.simple dep),
        get-insert t.edges dep u (insert_set service (dependents_of t.edges dep)),
      );
    }

    pub add_dependency-Counts : Counts active added
    add_dependency-Counts = elim (Bool-cases is_new) [
      | inl new ↦ rw (added_eq, new) (grown-Counts (ground arith) (ground arith))
      | inr old ↦ rw (added_eq, old) c
    ]
