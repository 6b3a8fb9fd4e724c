-- ===== src/Plan/Dag/Correct.antt =====
-- crates/susun-planner/src/dag.rs: the result of `topological_action_order`.
use susun.Prelude.{
  ℕ, suc, ◌<◌, ◌≡◌, ◌↔◌, refl, sym, ◌∙◌, ap, true, some, List, [], ◌∷◌, arith, text, ◌=?◌, list_eq,
  nat_eq, ◌==◌, Bool-cases, inl, inr, ◌⊎◌, length,
}
use susun.IndexMap.{IndexMap, contains, IsDistinct, get, keys, get-none_iff}
use susun.Kahn.{drain, ready_nodes}
use susun.Kahn.Counting.{depends, open_count}
use susun.Kahn.Members.{open_count-length}
use susun.Kahn.Invariant.{IsGraph}
use susun.Kahn.Start.{start-Inv}
use susun.Kahn.Run.{
  Ends, index, drain_total, order-IsDistinct, order_nodes, complete_iff, complete_of_ranked,
  IsRanked-of_complete,
}
use susun.Plan.{ActionId, PlanActionNode, PlanError, invariant_violation}
use susun.Plan.Dag.{
  PlanResult, ok, err, DagTables, check_actions, conclude, order_checked, topological_action_order,
}
use susun.Plan.Dag.Filled.{dependencies_of}
use susun.Plan.Dag.Accepted.{IsSound, Accepted, check_actions-eq_ok, check_actions_ok}

-- What the types `IndexMap` and `IndexSet` give: no key and no dependency twice.
pub record IsWellTyped (actions : IndexMap ActionId PlanActionNode) : Type 0 where
  pub keys_distinct : IsDistinct (keys actions)
  pub dependencies_distinct : (id : ActionId) → IsDistinct (dependencies_of actions id)

-- `rank` puts every action behind its dependencies.
abbrev pub IsRanked : IndexMap ActionId PlanActionNode → (ActionId → ℕ) → Type 0
IsRanked actions rank =
    (k u : ActionId) → contains (dependencies_of actions k) u ≡ true → rank u < rank k

dependencies_of-key :
    (actions : IndexMap ActionId PlanActionNode) (k u : ActionId)
    → contains (dependencies_of actions k) u ≡ true
    → contains (keys actions) k ≡ true
unfolding dependencies_of contains
dependencies_of-key actions k u h = ground (arith, get-none_iff actions k)

pub length-keys :
    {V : Type 0} (actions : IndexMap ActionId V) → length (keys actions) ≡ length actions
unfolding keys
length-keys [] = refl
length-keys ((id, node) ∷ actions) = ap suc (length-keys actions)

known_of_sound :
    (actions todo : IndexMap ActionId PlanActionNode) (k u : ActionId)
    → IsSound actions todo
    → contains (dependencies_of todo k) u ≡ true
    → contains (keys actions) u ≡ true
unfolding dependencies_of get contains
known_of_sound actions [] k u s h = cc
known_of_sound actions ((id, node) ∷ todo) k u s h = elim (Bool-cases (id =? k)) [
  | inl same ↦ (s.1 u (ground arith)).1
  | inr other ↦ known_of_sound actions todo k u s.2 (ground arith)
]

abbrev pub no_tables : DagTables
no_tables = record { dependents = []; indegree = [] }

module _ (actions : IndexMap ActionId PlanActionNode) (typed : IsWellTyped actions) (t : DagTables)
    (accepted : Accepted actions actions no_tables t) where
  pub depends_eq :
      (v u : ActionId) → depends t.dependents v u ≡ contains (dependencies_of actions v) u
  unfolding get contains
  depends_eq v u = accepted.edges v u

  pub g : IsGraph t.dependents (keys actions)
  unfolding get
  g = record {
    distinct = typed.keys_distinct;
    simple = accepted.simple (λ u. tt);
    closed = λ v u d. dependencies_of-key actions v u (rw (← depends_eq v u) d);
  }

  degrees_eq :
      (k : ActionId)
      → contains (keys actions) k ≡ true
      → get t.indegree k ≡ some (length (dependencies_of actions k))
  unfolding dependencies_of
  degrees_eq k m = ground (arith, accepted.degrees k, get-none_iff actions k)

  pub known :
      (k u : ActionId)
      → contains (dependencies_of actions k) u ≡ true
      → contains (keys actions) u ≡ true
  known k u h = known_of_sound actions actions k u accepted.sound h

  pub counted :
      (k : ActionId)
      → contains (keys actions) k ≡ true
      → get t.indegree k ≡ some (open_count t.dependents k [] (keys actions))
  counted k m =
      degrees_eq k m
      ∙ ap some (
          sym (
            open_count-length t.dependents k (keys actions) (dependencies_of actions k)
              typed.keys_distinct (typed.dependencies_distinct k) (known k) (depends_eq k)))

  -- The loop ends; what it leaves is complete exactly for a graph with a rank.
  record Ran : Type 0 where
    r : List ActionId
    ends : Ends t.dependents (keys actions) g r
    run :
        drain (length actions) t.dependents (ready_nodes t.indegree (keys actions)) t.indegree []
        ≡ some r

  ran : Ran
  ran =
      let (r, run, ends) =
        drain_total t.dependents (keys actions) g (length actions)
          (ready_nodes t.indegree (keys actions)) t.indegree []
          (start-Inv t.dependents (keys actions) t.indegree g counted)
          (omega (arith, length-keys actions)) in
      record { r = r; ends = ends; run = run }

  open ran use {r, ends, run}

  complete : length r ≡ length actions → length r ≡ length (keys actions)
  complete same = same ∙ sym (length-keys actions)

  order_sound :
      length r ≡ length actions
      → IsDistinct r
        × ((k : ActionId) → contains r k ≡ contains (keys actions) k)
        × IsRanked actions (index r)
  order_sound same = (
    order-IsDistinct t.dependents (keys actions) g r ends,
    λ k. ground (
      arith,
      order_nodes t.dependents (keys actions) g r ends k,
      (complete_iff t.dependents (keys actions) g r ends).0 (complete same) k,
    ),
    λ k u h.
        IsRanked-of_complete t.dependents (keys actions) g r ends (complete same) k u
          (dependencies_of-key actions k u h) (known k u h) (rw (depends_eq k u) h),
  )

  order_complete : (rank : ActionId → ℕ) → IsRanked actions rank → length r ≡ length actions
  order_complete rank ranked =
      complete_of_ranked t.dependents (keys actions) g r ends rank
        (λ k u mk mu d. ranked k u (rw (← depends_eq k u) d))
      ∙ length-keys actions

  order_checked_eq : order_checked actions (ok t) ≡ conclude (length actions) (some r)
  unfolding order_checked
  order_checked_eq = ap (conclude (length actions)) run

pub PlanResult-cases :
    {A : Type 0} (m : PlanResult A) → ((a : A) × (m ≡ ok a)) ⊎ ((e : PlanError) × (m ≡ err e))
PlanResult-cases (ok a) = inl (a, refl)
PlanResult-cases (err e) = inr (e, refl)

conclude_ok :
    (n : ℕ) (r order : List ActionId)
    → conclude n (some r) ≡ some (ok order)
    → (length r ≡ n) × (r ≡ order)
conclude_ok n r order h = ground arith

conclude_complete : (n : ℕ) (r : List ActionId) → length r ≡ n → conclude n (some r) ≡ some (ok r)
conclude_complete n r h = ground arith

conclude_total :
    (n : ℕ) (r : List ActionId) → (x : PlanResult (List ActionId)) × (conclude n (some r) ≡ some x)
conclude_total n r = elim (Bool-cases (length r == n)) [
  | inl same ↦ (ok r, rw same)
  | inr other ↦ (err (invariant_violation (text "action graph contains a cycle")), rw other)
]

module _ (actions : IndexMap ActionId PlanActionNode) (typed : IsWellTyped actions) where
  abbrev pub checked : PlanResult DagTables
  checked = check_actions actions actions no_tables

  pub top_eq :
      (c : PlanResult DagTables)
      → checked ≡ c
      → topological_action_order actions ≡ order_checked actions c
  unfolding topological_action_order
  top_eq c h = ap (order_checked actions) h

  pub order_checked_err : (e : PlanError) → order_checked actions (err e) ≡ some (err e)
  unfolding order_checked
  order_checked_err e = refl

  pub Accepted-of : (t : DagTables) → checked ≡ ok t → Accepted actions actions no_tables t
  Accepted-of t h = check_actions-eq_ok actions actions no_tables t typed.keys_distinct h

  -- For a plan with no key and no dependency of an action twice (`IndexMap`, `IndexSet`), the loop of
  -- `topological_action_order` ends: the function returns an order or
  -- an error.
  pub topological_action_order_total :
      (x : PlanResult (List ActionId)) × (topological_action_order actions ≡ some x)
  topological_action_order_total = elim (PlanResult-cases checked) [
    | inl (t, h) ↦
        rw (top_eq (ok t) h ∙ order_checked_eq actions typed t (Accepted-of t h))
          (conclude_total (length actions) (ran actions typed t (Accepted-of t h)).r)
    | inr (e, h) ↦ (err e, top_eq (err e) h ∙ order_checked_err e)
  ]

  -- For a plan with no key and no dependency of an action twice, a returned order holds every action once and nothing else, and each action stands behind all of
  -- its dependencies.
  pub topological_action_order_sound :
      (order : List ActionId)
      → topological_action_order actions ≡ some (ok order)
      → IsDistinct order
        × ((k : ActionId) → contains order k ≡ contains (keys actions) k)
        × IsRanked actions (index order)
  topological_action_order_sound order returned = elim (PlanResult-cases checked) [
    | inl (t, h) ↦
        let (same, eq) =
          conclude_ok (length actions) (ran actions typed t (Accepted-of t h)).r order (
            sym (top_eq (ok t) h ∙ order_checked_eq actions typed t (Accepted-of t h))
            ∙ returned) in
        rw eq at (order_sound actions typed t (Accepted-of t h) same)
    | inr (e, h) ↦ cc (top_eq (err e) h, order_checked_err e, returned)
  ]

  -- A plan with no key and no dependency of an action twice gets an order exactly if every action stands under its own id and depends on other actions
  -- of the plan only, and the dependencies form no cycle.
  pub topological_action_order_iff :
      ((order : List ActionId) × (topological_action_order actions ≡ some (ok order)))
      ↔ (IsSound actions actions × ((rank : ActionId → ℕ) × IsRanked actions rank))
  topological_action_order_iff = (
    λ (order, returned). elim (PlanResult-cases checked) [
      | inl (t, h) ↦ (
        (Accepted-of t h).sound,
        (index order, (topological_action_order_sound order returned).2),
      )
      | inr (e, h) ↦ cc (top_eq (err e) h, order_checked_err e, returned)
    ],
    λ (sound, (rank, ranked)).
        let (t, h) = check_actions_ok actions actions no_tables sound in
        let a = Accepted-of t h in
        (
          (ran actions typed t a).r,
          top_eq (ok t) h
              ∙ order_checked_eq actions typed t a
              ∙ conclude_complete (length actions) (ran actions typed t a).r
                  (order_complete actions typed t a rank ranked),
        ),
  )
