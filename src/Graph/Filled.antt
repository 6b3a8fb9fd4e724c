-- ===== src/Graph/Filled.antt =====
-- crates/susun-graph/src/lib.rs: the tables that the loops fill.
use susun.Prelude.{
  ◌≡◌, refl, true, ◌&&◌, ◌||◌, some, List, [], ◌∷◌, arith, Eq, ◌=?◌, =?_refl, if◌then◌else◌,
}
use susun.IndexMap.{IndexMap, contains, IsDistinct, get, insert, get-insert}
use susun.Kahn.{dependents_of}
use susun.Kahn.Counting.{depends, open_count}
use susun.Kahn.Invariant.{IsGraph}
use susun.Graph.{Tables, init_tables, add_dependency, add_dependencies, add_services, tables}
use susun.Graph.Edges.{Counts, depends-add_dependency, add_dependency-Counts}

module _ {K : Type 0} ⦃e : Eq K⦄ where
  get-init_edges :
      (active : List K) (t : Tables K) (u : K)
      → get (init_tables active t).edges u ≡ (if contains active u then some [] else get t.edges u)
  unfolding init_tables contains
  get-init_edges [] t u = refl
  get-init_edges (s ∷ active) t u =
      let t' : Tables K = record {
        edges = insert s [] t.edges;
        indegree = insert s 0 t.indegree;
      } in
      ground (arith, get-init_edges active t' u, get-insert t.edges s u [], e.beq_iff s u)

  get-init_indegree :
      (active : List K) (t : Tables K) (u : K)
      → get (init_tables active t).indegree u
        ≡ (if contains active u then some 0 else get t.indegree u)
  unfolding init_tables contains
  get-init_indegree [] t u = refl
  get-init_indegree (s ∷ active) t u =
      let t' : Tables K = record {
        edges = insert s [] t.edges;
        indegree = insert s 0 t.indegree;
      } in
      ground (arith, get-init_indegree active t' u, get-insert t.indegree s u 0, e.beq_iff s u)

  abbrev no_tables : Tables K
  no_tables = record { edges = []; indegree = [] }

  blank : (active : List K) (u : K) → dependents_of (init_tables active no_tables).edges u ≡ []
  unfolding get
  blank active u = ground (arith, get-init_edges active no_tables u)

  module _ (active : List K) (distinct : IsDistinct active) where
    open_count-blank :
        (edges : IndexMap K (List K)) (v : K) (nodes : List K)
        → ((u : K) → dependents_of edges u ≡ [])
        → open_count edges v [] nodes ≡ 0
    unfolding open_count contains
    open_count-blank edges v [] h = refl
    open_count-blank edges v (u ∷ nodes) h = ground (arith, open_count-blank edges v nodes, h u)

    -- All the keys of one service's `depends_on`.
    add_dependencies-Counts :
        (service : K) (deps : List K) (t : Tables K)
        → contains active service ≡ true
        → Counts active t
        → Counts active (add_dependencies active service deps t)
    unfolding add_dependencies
    add_dependencies-Counts service [] t listed c = c
    add_dependencies-Counts service (d ∷ deps) t listed c =
        add_dependencies-Counts service deps (add_dependency active service d t) listed
          (add_dependency-Counts active distinct service d listed t c)

    depends-add_dependencies :
        (service : K) (deps : List K) (t : Tables K) (v u : K)
        → contains active service ≡ true
        → Counts active t
        → depends (add_dependencies active service deps t).edges v u
          ≡ (depends t.edges v u || ((service =? v) && (contains deps u && contains active u)))
    unfolding add_dependencies contains
    depends-add_dependencies service [] t v u listed c = ground arith
    depends-add_dependencies service (d ∷ deps) t v u listed c = ground (
      arith,
      depends-add_dependencies service deps (add_dependency active service d t) v u listed
          (add_dependency-Counts active distinct service d listed t c),
      depends-add_dependency active distinct service d listed t c v u,
      e.beq_iff d u,
    )

    module _ (deps : K → List K) where
      add_services-Counts :
          (todo : List K) (t : Tables K)
          → ((k : K) → contains todo k ≡ true → contains active k ≡ true)
          → Counts active t
          → Counts active (add_services deps active todo t)
      unfolding add_services contains
      add_services-Counts [] t sub c = c
      add_services-Counts (s ∷ todo) t sub c =
          add_services-Counts todo (add_dependencies active s (deps s) t)
            (λ k m. sub k (ground arith))
            (add_dependencies-Counts s (deps s) t (sub s (ground (arith, =?_refl s))) c)

      depends-add_services :
          (todo : List K) (t : Tables K) (v u : K)
          → ((k : K) → contains todo k ≡ true → contains active k ≡ true)
          → Counts active t
          → depends (add_services deps active todo t).edges v u ≡ (
              depends t.edges v u
              || (contains todo v && (contains (deps v) u && contains active u)))
      unfolding add_services contains
      depends-add_services [] t v u sub c = ground arith
      depends-add_services (s ∷ todo) t v u sub c =
          let here : contains active s ≡ true = sub s (ground (arith, =?_refl s)) in
          ground (
            arith,
            depends-add_services todo (add_dependencies active s (deps s) t) v u
                (λ k m. sub k (ground arith)) (add_dependencies-Counts s (deps s) t here c),
            depends-add_dependencies s (deps s) t v u here c,
            e.beq_iff s v,
          )

      init-Counts : Counts active (init_tables active no_tables)
      init-Counts = record {
        has_edges = λ k m. ground (arith, get-init_edges active no_tables k);
        counted = λ k m. ground (
          arith,
          get-init_indegree active no_tables k,
          open_count-blank (init_tables active no_tables).edges k active (blank active),
        );
        simple = λ u. rw (blank active u) tt;
      }

      -- The tables count the edges.
      pub tables-Counts : Counts active (tables deps active)
      unfolding tables
      tables-Counts = add_services-Counts active _ (λ k m. m) init-Counts

      -- `v` is a dependent of `u` exactly if both are active and `v` names `u` in its `depends_on`.
      pub depends-tables :
          (v u : K)
          → depends (tables deps active).edges v u
            ≡ (contains active v && (contains (deps v) u && contains active u))
      unfolding tables contains
      depends-tables v u = ground (
        arith,
        depends-add_services active (init_tables active no_tables) v u (λ k m. m) init-Counts,
        blank active u,
      )

      pub tables-IsGraph : IsGraph (tables deps active).edges active
      tables-IsGraph = record {
        distinct = distinct;
        simple = tables-Counts.simple;
        closed = λ v u d. ground (arith, depends-tables v u);
      }
