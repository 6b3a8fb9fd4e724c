-- ===== src/Plan/Dag/Filled.antt =====
-- crates/susun-planner/src/dag.rs: the inner loop of the checks, and its tables.
use mathlib.Core.Path.{subst}
use susun.Prelude.{
  ◌≡◌, refl, ◌∙◌, true, false, ◌&&◌, ◌||◌, none, some, List, [], ◌∷◌, arith, ◌=?◌, =?_refl, list_eq,
  nat_eq, list_beq_iff, Bool-cases, inl, inr,
}
use susun.IndexMap.{
  IndexMap, contains, contains-insert_set, insert_set, IsDistinct, IsDistinct-insert_set, get,
  get-insert, keys, contains_key, contains_key-keys,
}
use susun.Kahn.{dependents_of}
use susun.Kahn.Counting.{depends}
use susun.Plan.{ActionId, PlanActionNode}
use susun.Plan.Dag.{ok, DagTables, add_dependent, add_entry, check_dependencies}

-- The dependencies of an action, none for an unknown one.
unfoldable pub dependencies_of : IndexMap ActionId PlanActionNode → ActionId → List ActionId
dependencies_of actions id = elim (get actions id) [ none ↦ [] | some node ↦ node.dependencies ]

depends-add_dependent :
    (d id : ActionId) (t : DagTables) (v u : ActionId)
    → depends (add_dependent d id t).dependents v u
      ≡ (depends t.dependents v u || ((d =? u) && (id =? v)))
unfolding add_dependent
depends-add_dependent d id t v u = ground (
  arith,
  get-insert t.dependents d u (insert_set id (dependents_of t.dependents d)),
  contains-insert_set id (dependents_of t.dependents d) v,
  list_beq_iff d u,
)

pub dependents-add_entry :
    (id : ActionId) (t : DagTables) (u : ActionId)
    → dependents_of (add_entry id t).dependents u ≡ dependents_of t.dependents u
unfolding add_entry
dependents-add_entry id t u =
    ground (arith, get-insert t.dependents id u (dependents_of t.dependents id), list_beq_iff id u)

abbrev pub IsSimple : DagTables → Type 0
IsSimple t = (u : ActionId) → IsDistinct (dependents_of t.dependents u)

add_dependent-IsSimple :
    (d id : ActionId) (t : DagTables) → IsSimple t → IsSimple (add_dependent d id t)
unfolding add_dependent
add_dependent-IsSimple d id t h u = ground (
  arith,
  h u,
  IsDistinct-insert_set id (dependents_of t.dependents d) (h d),
  get-insert t.dependents d u (insert_set id (dependents_of t.dependents d)),
)

indegree-add_dependent :
    (d id : ActionId) (t : DagTables) → (add_dependent d id t).indegree ≡ t.indegree
unfolding add_dependent
indegree-add_dependent d id t = refl

pub ok_inj : {A : Type 0} {a b : A} → ok a ≡ ok b → a ≡ b
ok_inj h = cc

module _ (actions : IndexMap ActionId PlanActionNode) (id : ActionId) where
  -- What the inner loop accepts: other actions of the plan.
  abbrev pub AreKnown : List ActionId → Type 0
  AreKnown deps =
      (d : ActionId)
      → contains deps d ≡ true
      → ((d =? id) ≡ false) × (contains (keys actions) d ≡ true)

  known_cons :
      (d : ActionId) (deps : List ActionId)
      → (d =? id) ≡ false
      → contains (keys actions) d ≡ true
      → AreKnown deps
      → AreKnown (d ∷ deps)
  unfolding contains
  known_cons d deps other here h k m = elim (Bool-cases (d =? k)) [
    | inl same ↦ rw (← (list_beq_iff d k).0 same) (other, here)
    | inr later ↦ h k (ground arith)
  ]

  -- What the inner loop has done when it succeeds.
  pub record Checked (deps : List ActionId) (t t' : DagTables) : Type 0 where
    pub same_indegree : t'.indegree ≡ t.indegree
    pub simple : IsSimple t → IsSimple t'
    pub edges :
        (v u : ActionId)
        → depends t'.dependents v u ≡ (depends t.dependents v u || ((id =? v) && contains deps u))
    pub known : AreKnown deps

  check_dependencies_step :
      (d : ActionId) (deps : List ActionId) (t t' : DagTables)
      → check_dependencies actions id (d ∷ deps) t ≡ ok t'
      → ((d =? id) ≡ false)
        × (contains_key actions d ≡ true)
        × (check_dependencies actions id deps (add_dependent d id t) ≡ ok t')
  unfolding check_dependencies
  check_dependencies_step d deps t t' h = ground arith

  pub check_dependencies-eq_ok :
      (deps : List ActionId) (t t' : DagTables)
      → check_dependencies actions id deps t ≡ ok t'
      → Checked deps t t'
  unfolding check_dependencies contains
  check_dependencies-eq_ok [] t t' h = subst (Checked [] t) (ok_inj h) (record {
    same_indegree = refl;
    simple = λ s. s;
    edges = λ v u. ground arith;
    known = λ d m. cc;
  })
  check_dependencies-eq_ok (d ∷ deps) t t' h =
      let (other, here, rest) = check_dependencies_step d deps t t' h in
      let c = check_dependencies-eq_ok deps (add_dependent d id t) t' rest in
      record {
        same_indegree = c.same_indegree ∙ indegree-add_dependent d id t;
        simple = λ s. c.simple (add_dependent-IsSimple d id t s);
        edges = λ v u. ground (arith, c.edges v u, depends-add_dependent d id t v u);
        known =
            λ k m. known_cons d deps other (rw (← contains_key-keys actions d) here) c.known k m;
      }

  pub check_dependencies_ok :
      (deps : List ActionId) (t : DagTables)
      → AreKnown deps
      → (t' : DagTables) × (check_dependencies actions id deps t ≡ ok t')
  unfolding check_dependencies contains
  check_dependencies_ok [] t h = (t, refl)
  check_dependencies_ok (d ∷ deps) t h =
      let (other, here) = h d (ground (arith, =?_refl d)) in
      rw (other, contains_key-keys actions d, here)
        (check_dependencies_ok deps (add_dependent d id t) (λ k m. h k (ground arith)))
