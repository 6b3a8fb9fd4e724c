-- ===== src/Plan/Dag/Accepted.antt =====
-- crates/susun-planner/src/dag.rs: the outer loop of the checks, and its tables.
use mathlib.Core.Path.{subst}
use susun.Prelude.{
  ℕ, ◌≡◌, refl, ◌∙◌, ap, true, false, ◌&&◌, ◌||◌, none, some, [], ◌∷◌, arith, ◌=?◌, list_eq, nat_eq,
  list_beq_iff, Bool-cases, inl, inr, length,
}
use susun.IndexMap.{IndexMap, contains, IsDistinct, get, insert, get-insert, keys, get-none_iff}
use susun.Kahn.Counting.{depends}
use susun.Plan.{ActionId, PlanActionNode}
use susun.Plan.Dag.{
  PlanResult, ok, err, DagTables, ◌>>=◌, add_entry, check_dependencies, check_actions,
}
use susun.Plan.Dag.Filled.{
  dependencies_of, dependents-add_entry, IsSimple, AreKnown, check_dependencies-eq_ok,
  check_dependencies_ok, ok_inj,
}

-- Each action stands under its own id, and depends on other actions of the plan only.
abbrev pub IsSound : (actions todo : IndexMap ActionId PlanActionNode) → Type 0
IsSound actions [] = Unit
IsSound actions ((id, node) ∷ todo) =
    ((id =? node.id) ≡ true) × AreKnown actions id node.dependencies × IsSound actions todo

-- The tables in front of the inner loop.
abbrev pub entered : ActionId → PlanActionNode → DagTables → DagTables
entered id node t =
    add_entry id (record t { indegree = insert id (length node.dependencies) t.indegree })

indegree-entered :
    (id : ActionId) (node : PlanActionNode) (t : DagTables)
    → (entered id node t).indegree ≡ insert id (length node.dependencies) t.indegree
unfolding add_entry
indegree-entered id node t = refl

>>=-eq_ok :
    {A B : Type 0} (m : PlanResult A) (f : A → PlanResult B) (b : B)
    → (m >>= f) ≡ ok b
    → (a : A) × (m ≡ ok a) × (f a ≡ ok b)
>>=-eq_ok (ok a) f b h = (a, refl, h)
>>=-eq_ok (err e) f b h = cc

contains-dependencies_of_cons :
    (id : ActionId) (node : PlanActionNode) (todo : IndexMap ActionId PlanActionNode)
    (v u : ActionId)
    → contains (keys todo) id ≡ false
    → contains (dependencies_of ((id, node) ∷ todo) v) u
      ≡ ((id =? v && contains node.dependencies u) || contains (dependencies_of todo v) u)
unfolding dependencies_of get contains
contains-dependencies_of_cons id node todo v u new =
    ground (arith, get-none_iff todo id, list_beq_iff id v)

module _ (actions : IndexMap ActionId PlanActionNode) where
  pub check_actions_step :
      (id : ActionId) (node : PlanActionNode) (todo : IndexMap ActionId PlanActionNode)
      (t t' : DagTables)
      → check_actions actions ((id, node) ∷ todo) t ≡ ok t'
      → ((id =? node.id) ≡ true)
        × (mid : DagTables) × (check_dependencies actions id node.dependencies (entered id node t)
            ≡ ok mid)
        × (check_actions actions todo mid ≡ ok t')
  unfolding check_actions
  check_actions_step id node todo t t' h = elim (Bool-cases (id =? node.id)) [
    | inl same ↦
        let (mid, checked, rest) =
          >>=-eq_ok (check_dependencies actions id node.dependencies (entered id node t))
            (check_actions actions todo) t' (rw (same, check_actions) at h) in
        (same, mid, checked, rest)
    | inr other ↦ cc (rw (other, check_actions) at h)
  ]

  pub record Accepted (todo : IndexMap ActionId PlanActionNode) (t t' : DagTables) : Type 0 where
    pub sound : IsSound actions todo
    pub simple : IsSimple t → IsSimple t'
    pub edges :
        (v u : ActionId)
        → depends t'.dependents v u
          ≡ (depends t.dependents v u || contains (dependencies_of todo v) u)
    pub degrees :
        (v : ActionId)
        → get t'.indegree v ≡ elim (get todo v) [
          | none ↦ get t.indegree v
          | some node ↦ some (length node.dependencies)
        ]

  no_dependencies :
      (t : DagTables) (v u : ActionId)
      → depends t.dependents v u ≡ (depends t.dependents v u || contains (dependencies_of [] v) u)
  unfolding dependencies_of get contains
  no_dependencies t v u = ground arith

  degrees_cons :
      (id : ActionId) (node : PlanActionNode) (todo : IndexMap ActionId PlanActionNode)
      (v : ActionId) (t mid t' : DagTables)
      → contains (keys todo) id ≡ false
      → mid.indegree ≡ insert id (length node.dependencies) t.indegree
      → get t'.indegree v
        ≡ elim (get todo v) [ none ↦ get mid.indegree v | some n ↦ some (length n.dependencies) ]
      → get t'.indegree v ≡ elim (get ((id, node) ∷ todo) v) [
        | none ↦ get t.indegree v
        | some n ↦ some (length n.dependencies)
      ]
  unfolding get
  degrees_cons id node todo v t mid t' new e h = ground (
    arith,
    get-insert t.indegree id v (length node.dependencies),
    get-none_iff todo id,
    list_beq_iff id v,
    ap (λ (m : IndexMap ActionId ℕ). get m v) e,
  )

  pub check_actions-eq_ok :
      (todo : IndexMap ActionId PlanActionNode) (t t' : DagTables)
      → IsDistinct (keys todo)
      → check_actions actions todo t ≡ ok t'
      → Accepted todo t t'
  unfolding check_actions contains keys get
  check_actions-eq_ok [] t t' d h = subst (Accepted [] t) (ok_inj h) base
    where
      base : Accepted [] t t
      base = record {
        sound = tt;
        simple = λ s. s;
        edges = λ v u. no_dependencies t v u;
        degrees = λ v. refl;
      }
  check_actions-eq_ok ((id, node) ∷ todo) t t' d h =
      let (same, mid, checked, rest) = check_actions_step id node todo t t' h in
      let c =
        check_dependencies-eq_ok actions id node.dependencies (entered id node t) mid checked in
      let a = check_actions-eq_ok todo mid t' d.1 rest in
      record {
        sound = (same, c.known, a.sound);
        simple = λ s. a.simple (
            c.simple (λ u.
              rw
                (dependents-add_entry id
                  (record t { indegree = insert id (length node.dependencies) t.indegree }) u)
                (s u)));
        edges = λ v u. ground (
          arith,
          a.edges v u,
          c.edges v u,
          dependents-add_entry id
              (record t { indegree = insert id (length node.dependencies) t.indegree }) u,
          contains-dependencies_of_cons id node todo v u d.0,
        );
        degrees = λ v.
            degrees_cons id node todo v t mid t' d.0 (c.same_indegree ∙ indegree-entered id node t)
              (a.degrees v);
      }

  -- A sound plan passes the checks.
  pub check_actions_ok :
      (todo : IndexMap ActionId PlanActionNode) (t : DagTables)
      → IsSound actions todo
      → (t' : DagTables) × (check_actions actions todo t ≡ ok t')
  unfolding check_actions
  check_actions_ok [] t s = (t, refl)
  check_actions_ok ((id, node) ∷ todo) t s =
      let (mid, checked) =
        check_dependencies_ok actions id node.dependencies (entered id node t) s.1 in
      let (t', rest) = check_actions_ok todo mid s.2 in (t', rw (s.0, checked) rest)
