-- ===== src/Graph/Correct.antt =====
-- crates/susun-graph/src/lib.rs: the result of `build_graph`.
use susun.Prelude.{
  ℕ, ◌<◌, ◌≡◌, ◌≢◌, ◌↔◌, refl, sym, ◌∙◌, ap, Bool, true, false, ◌&&◌, none, some, List, [], arith,
  list_eq, nat_eq, ◌==◌, ==_iff, Bool-cases, ◌⊎◌, inl, inr, length,
}
use susun.IndexMap.{IndexMap, contains, IsDistinct}
use susun.Model.{ServiceName, Project}
use susun.Selection.{ProjectSelection}
use susun.Diagnostics.Report.{has_errors, push}
use susun.Kahn.{ready_nodes}
use susun.Kahn.Counting.{depends}
use susun.Kahn.Invariant.{IsGraph}
use susun.Kahn.Run.{
  Ends, index, drain_total, order-IsDistinct, order_nodes, complete_iff, complete_of_ranked,
  IsRanked-of_complete,
}
use susun.Kahn.Start.{start-Inv}
use susun.Graph.{
  DependencyGraph, GraphOutcome, outcome, conclude, tables, depends_on_keys, build_graph,
}
use susun.Graph.Filled.{tables-Counts, tables-IsGraph, depends-tables}

-- `k` and `u` are active, and `k` names `u` in its `depends_on`.
abbrev pub Needs : Project → List ServiceName → (k u : ServiceName) → Type 0
Needs project active k u =
    (contains active k ≡ true)
    × (contains active u ≡ true)
    × (contains (depends_on_keys project k) u ≡ true)

-- `rank` puts each active service behind its active dependencies: they form no cycle.
abbrev pub IsAcyclic : Project → List ServiceName → (ServiceName → ℕ) → Type 0
IsAcyclic project active rank = (k u : ServiceName) → Needs project active k u → rank u < rank k

some_inj : {A : Type 0} {a b : A} → some a ≡ some b → a ≡ b
some_inj h = cc

and_parts : (a b c : Bool) → (a && (b && c)) ≡ true → (a ≡ true) × (c ≡ true) × (b ≡ true)
and_parts a b c h = ground arith

-- The two ways in which the function ends.
record IsOrder (order : List ServiceName) (edges : IndexMap ServiceName (List ServiceName))
    (o : GraphOutcome) : Type 0 where
  graph : o.graph ≡ some (record { order = order; edges = edges })
  no_errors : has_errors o.report ≡ false

record IsCycle (o : GraphOutcome) : Type 0 where
  graph : o.graph ≡ none
  errors : has_errors o.report ≡ true

outcome_cases :
    (active order : List ServiceName) (edges : IndexMap ServiceName (List ServiceName))
    → (length order ≡ length active) × IsOrder order edges (outcome active order edges)
      ⊎ (length order ≢ length active) × IsCycle (outcome active order edges)
unfolding has_errors push
outcome_cases active order edges = elim (Bool-cases (length order == length active)) [
  | inl same ↦ inl (
    (==_iff (length order) (length active)).0 same,
    rw same (record { graph = refl; no_errors = refl }),
  )
  | inr other ↦ inr (
    λ eq. ground (arith, ==_iff (length order) (length active)),
    rw other (record { graph = refl; errors = refl }),
  )
]

module _ (project : Project) (selection : ProjectSelection)
    (distinct : IsDistinct selection.active_services) where
  abbrev active : List ServiceName
  active = selection.active_services

  abbrev edges : IndexMap ServiceName (List ServiceName)
  edges = (tables (depends_on_keys project) active).edges

  -- The loop ends, and `r` is the order that it leaves.
  record Ran : Type 0 where
    r : List ServiceName
    ends : Ends edges active (tables-IsGraph active distinct (depends_on_keys project)) r
    built : build_graph project selection ≡ some (outcome active r edges)

  ran : Ran
  unfolding build_graph
  ran =
      let counts = tables-Counts active distinct (depends_on_keys project) in
      let g = tables-IsGraph active distinct (depends_on_keys project) in
      let indegree = (tables (depends_on_keys project) active).indegree in
      let (r, run, ends) =
        drain_total edges active g (length active) (ready_nodes indegree active) indegree []
          (start-Inv edges active indegree g counts.counted) (omega arith) in
      record { r = r; ends = ends; built = ap (conclude active edges) run }

  open ran use {r, ends, built}

  abbrev g : IsGraph edges active
  g = tables-IsGraph active distinct (depends_on_keys project)

  returned :
      {o : GraphOutcome} → build_graph project selection ≡ some o → outcome active r edges ≡ o
  returned b = cc (built, b)

  -- For a selection that names no service twice (it is an `IndexSet`), the loop of `build_graph` ends
  -- whatever the project: the function returns an outcome.
  pub build_graph_total : (o : GraphOutcome) × (build_graph project selection ≡ some o)
  build_graph_total = (outcome active r edges, built)

  -- For a selection that names no service twice, an outcome of `build_graph` is without a graph exactly
  -- if its report has errors.
  pub build_graph-has_errors :
      (o : GraphOutcome)
      → build_graph project selection ≡ some o
      → (o.graph ≡ none) ↔ (has_errors o.report ≡ true)
  build_graph-has_errors o b = elim (outcome_cases active r edges) [
    | inl (same, h) ↦ rw (← returned b) (λ n. cc (h.graph, n), λ n. cc (h.no_errors, n))
    | inr (other, h) ↦ rw (← returned b) (λ n. h.errors, λ n. h.graph)
  ]

  depends_of_Needs : (k u : ServiceName) → Needs project active k u → depends edges k u ≡ true
  depends_of_Needs k u n =
      rw (depends-tables active distinct (depends_on_keys project) k u, n.0, n.1, n.2)

  Needs-of_depends : (k u : ServiceName) → depends edges k u ≡ true → Needs project active k u
  Needs-of_depends k u d =
      and_parts (contains active k) (contains (depends_on_keys project k) u) (contains active u)
        (rw (depends-tables active distinct (depends_on_keys project) k u) at d)

  complete_of_graph :
      (o : GraphOutcome) (dg : DependencyGraph)
      → build_graph project selection ≡ some o
      → o.graph ≡ some dg
      → (length r ≡ length active) × (dg.order ≡ r)
  complete_of_graph o dg b is = elim (outcome_cases active r edges) [
    | inl (same, h) ↦ (
      same,
      ap (λ (x : DependencyGraph). x.order) (some_inj (sym is ∙ (rw (returned b) at h.graph))),
    )
    | inr (other, h) ↦ cc (rw (returned b) at h.graph, is)
  ]

  -- For a selection that names no service twice, the order of a returned graph holds every active service once and nothing else, and each service
  -- stands behind all active services that it depends on.
  pub build_graph-order :
      (o : GraphOutcome) (dg : DependencyGraph)
      → build_graph project selection ≡ some o
      → o.graph ≡ some dg
      → IsDistinct dg.order
        × ((k : ServiceName) → contains dg.order k ≡ contains active k)
        × ((k u : ServiceName) → Needs project active k u → index dg.order u < index dg.order k)
  build_graph-order o dg b is =
      let (same, eq) = complete_of_graph o dg b is in
      rw eq (
        order-IsDistinct edges active g r ends,
        λ k. ground (
          arith,
          order_nodes edges active g r ends k,
          (complete_iff edges active g r ends).0 same k,
        ),
        λ k u n.
            IsRanked-of_complete edges active g r ends same k u n.0 n.1 (depends_of_Needs k u n),
      )

  -- For a selection that names no service twice, a graph is returned exactly if the dependencies between the active services form no cycle.
  pub build_graph-IsAcyclic_iff :
      (o : GraphOutcome)
      → build_graph project selection ≡ some o
      → ((dg : DependencyGraph) × (o.graph ≡ some dg))
        ↔ ((rank : ServiceName → ℕ) × IsAcyclic project active rank)
  build_graph-IsAcyclic_iff o b = (
    λ (dg, is). let order = build_graph-order o dg b is in (index dg.order, order.2),
    λ (rank, acyclic). elim (outcome_cases active r edges) [
      | inl (same, h) ↦ (record { order = r; edges = edges }, rw (returned b) at h.graph)
      | inr (other, h) ↦ absurd (
          other (
            complete_of_ranked edges active g r ends rank
              (λ k u mk mu d. acyclic k u (Needs-of_depends k u d))))
    ],
  )
