-- ===== src/Plan/Built.antt =====
-- crates/susun-planner: the invariant of the actions that the planners of `up` and `down` put together.
use Prim.Native.Nat.{max}
use susun.Prelude.{
  ℕ, suc, ◌<◌, ◌≡◌, refl, true, false, ◌||◌, some, List, [], ◌∷◌, arith, list_eq, nat_eq, ◌=?◌,
  =?_refl, list_beq_iff, if◌then◌else◌, Bool-cases, inl, inr,
}
use susun.IndexMap.{
  contains, IsDistinct, get, insert, get-insert, keys, contains_key-keys, contains-keys-insert,
  get-none_iff, keys-insert-IsDistinct,
}
use susun.Plan.{ActionId, PlanActionNode}
use susun.Plan.Dag.{ok, topological_action_order}
use susun.Plan.Dag.Filled.{dependencies_of}
use susun.Plan.Dag.Accepted.{IsSound}
use susun.Plan.Dag.Correct.{IsWellTyped, IsRanked, topological_action_order_iff}
use susun.Plan.Input.{Actions, insert_action}

-- Every action stands under its own id and depends on actions that are there, no key and no dependency
-- occurs twice, and some rank puts every action behind its dependencies.
pub record IsBuilt (actions : Actions) : Type 0 where
  pub keys_distinct : IsDistinct (keys actions)
  pub own_id : (k : ActionId) (n : PlanActionNode) → get actions k ≡ some n → n.id ≡ k
  pub dependencies_distinct : (k : ActionId) → IsDistinct (dependencies_of actions k)
  pub known :
      (k u : ActionId)
      → contains (dependencies_of actions k) u ≡ true
      → contains (keys actions) u ≡ true
  pub rank : ActionId → ℕ
  pub ranked : IsRanked actions rank

pub no_actions-IsBuilt : IsBuilt []
unfolding get keys dependencies_of contains
no_actions-IsBuilt = record {
  keys_distinct = tt;
  own_id = λ k n h. cc;
  dependencies_distinct = λ k. tt;
  known = λ k u h. cc;
  rank = λ k. 0;
  ranked = λ k u h. cc;
}

-- A rank above those of all dependencies.
above : (rank : ActionId → ℕ) → List ActionId → ℕ
above rank [] = 0
above rank (d ∷ deps) = max (suc (rank d)) (above rank deps)

lt-above :
    (rank : ActionId → ℕ) (deps : List ActionId) (u : ActionId)
    → contains deps u ≡ true
    → rank u < above rank deps
unfolding contains above
lt-above rank [] u h = cc
lt-above rank (d ∷ deps) u h = elim (Bool-cases (d =? u)) [
  | inl same ↦ rw (← (list_beq_iff d u).0 same) (omega arith)
  | inr other ↦ let later = lt-above rank deps u (ground (arith, h, other)) in omega (arith, later)
]

abbrev raised : (rank : ActionId → ℕ) → ActionId → ℕ → ActionId → ℕ
raised rank id n k = if id =? k then n else rank k

pub dependencies_of-insert :
    (actions : Actions) (node : PlanActionNode) (k : ActionId)
    → dependencies_of (insert node.id node actions) k
      ≡ (if node.id =? k then node.dependencies else dependencies_of actions k)
unfolding dependencies_of
dependencies_of-insert actions node k = ground (arith, get-insert actions node.id k node)

pub dependencies_of-absent :
    (actions : Actions) (k u : ActionId)
    → contains (keys actions) k ≡ false
    → contains (dependencies_of actions k) u ≡ false
unfolding dependencies_of contains
dependencies_of-absent actions k u h = ground (arith, get-none_iff actions k, h)

-- What `insert_action` wants: dependencies that are there, each once.
pub record IsReady (actions : Actions) (node : PlanActionNode) : Type 0 where
  pub distinct : IsDistinct node.dependencies
  pub known :
      (u : ActionId) → contains node.dependencies u ≡ true → contains (keys actions) u ≡ true

-- An action may be put where no action depends on it.
module _ (actions : Actions) (node : PlanActionNode) (b : IsBuilt actions)
    (ready : IsReady actions node) (other : contains node.dependencies node.id ≡ false)
    (unused : (k : ActionId) → contains (dependencies_of actions k) node.id ≡ false) where
  abbrev new_rank : ActionId → ℕ
  new_rank = raised b.rank node.id (above b.rank node.dependencies)

  put_known :
      (k u : ActionId)
      → contains (dependencies_of (insert node.id node actions) k) u ≡ true
      → (contains (keys actions) u ≡ true) × ((node.id =? u) ≡ false)
  put_known k u h = elim (Bool-cases (node.id =? k)) [
    | inl same ↦
        let d = rw (dependencies_of-insert actions node k, same) at h in
        (ready.known u d, ground (arith, other, d, list_beq_iff node.id u))
    | inr different ↦
        let d = rw (dependencies_of-insert actions node k, different) at h in
        (b.known k u d, ground (arith, unused k, d, list_beq_iff node.id u))
  ]

  put-IsRanked : IsRanked (insert node.id node actions) new_rank
  put-IsRanked k u h =
      let old = (put_known k u h).1 in
      elim (Bool-cases (node.id =? k)) [
        | inl same ↦
            rw (same, old)
              (lt-above b.rank node.dependencies u
                (rw (dependencies_of-insert actions node k, same) at h))
        | inr different ↦
            rw (different, old)
              (b.ranked k u (rw (dependencies_of-insert actions node k, different) at h))
      ]

  pub put-IsBuilt : IsBuilt (insert node.id node actions)
  put-IsBuilt = record {
    keys_distinct = keys-insert-IsDistinct actions node.id node b.keys_distinct;
    own_id = λ k n h.
        ground (arith, get-insert actions node.id k node, list_beq_iff node.id k, b.own_id k n, h);
    dependencies_distinct = λ k. elim (Bool-cases (node.id =? k)) [
      | inl same ↦ rw (dependencies_of-insert actions node k, same) ready.distinct
      | inr different ↦
          rw (dependencies_of-insert actions node k, different) (b.dependencies_distinct k)
    ];
    known = λ k u h.
        let (there, _) = put_known k u h in
        ground (arith, contains-keys-insert actions node.id node u, there);
    rank = new_rank;
    ranked = put-IsRanked;
  }

-- A new action is no dependency of those that are there.
insert-IsBuilt :
    (actions : Actions) (node : PlanActionNode)
    → IsBuilt actions
    → IsReady actions node
    → contains (keys actions) node.id ≡ false
    → IsBuilt (insert node.id node actions)
insert-IsBuilt actions node b ready new =
    put-IsBuilt actions node b ready (absent node.dependencies (λ h. ready.known node.id h))
      (λ k. absent (dependencies_of actions k) (λ h. b.known k node.id h))
  where
    absent :
        (deps : List ActionId)
        → (contains deps node.id ≡ true → contains (keys actions) node.id ≡ true)
        → contains deps node.id ≡ false
    absent deps h = elim (Bool-cases (contains deps node.id)) [
      | inl there ↦ cc (h there, new)
      | inr gone ↦ gone
    ]

-- What an insertion that succeeds has done.
pub record Inserted (actions : Actions) (node : PlanActionNode) (next : Actions) : Type 0 where
  pub built : IsBuilt next
  pub added : contains (keys next) node.id ≡ true
  pub kept : (k : ActionId) → contains (keys actions) k ≡ true → contains (keys next) k ≡ true
  pub entry : get next node.id ≡ some node
  pub others : (k : ActionId) → (node.id =? k) ≡ false → get next k ≡ get actions k
  pub new : contains (keys actions) node.id ≡ false
  pub key : (k : ActionId) → contains (keys next) k ≡ (node.id =? k || contains (keys actions) k)

insert_action_ok :
    (actions : Actions) (node : PlanActionNode) (next : Actions)
    → insert_action actions node ≡ ok next
    → (contains (keys actions) node.id ≡ false) × (insert node.id node actions ≡ next)
unfolding insert_action
insert_action_ok actions node next h =
    (ground (arith, h, contains_key-keys actions node.id), ground (arith, h))

pub insert_action-Inserted :
    (actions : Actions) (node : PlanActionNode) (next : Actions)
    → IsBuilt actions
    → IsReady actions node
    → insert_action actions node ≡ ok next
    → Inserted actions node next
insert_action-Inserted actions node next b ready h =
    let (new, same) = insert_action_ok actions node next h in
    rw (← same) (record {
      built = insert-IsBuilt actions node b ready new;
      added = ground (arith, contains-keys-insert actions node.id node node.id, =?_refl node.id);
      kept = λ k m. ground (arith, contains-keys-insert actions node.id node k, m);
      entry = ground (arith, get-insert actions node.id node.id node, =?_refl node.id);
      others = λ k other. ground (arith, get-insert actions node.id k node, other);
      new = new;
      key = λ k. contains-keys-insert actions node.id node k;
    })

pub dependencies_of-entry :
    (actions : Actions) (k : ActionId) (n : PlanActionNode)
    → get actions k ≡ some n
    → dependencies_of actions k ≡ n.dependencies
unfolding dependencies_of
dependencies_of-entry actions k n h = rw (h, dependencies_of) refl

IsBuilt-IsSound_onto :
    (actions todo : Actions)
    → IsBuilt actions
    → IsDistinct (keys todo)
    → ((k : ActionId) (n : PlanActionNode) → get todo k ≡ some n → get actions k ≡ some n)
    → IsSound actions todo
unfolding get keys contains dependencies_of
IsBuilt-IsSound_onto actions [] b d inside = tt
IsBuilt-IsSound_onto actions ((id, node) ∷ todo) b d inside =
    let here = inside id node (rw (=?_refl id) refl) in
    let own = b.own_id id node here in
    let known = λ (u : ActionId) (m : contains node.dependencies u ≡ true).
      b.known id u (rw (dependencies_of-entry actions id node here) m) in
    let below = λ (u : ActionId) (m : contains node.dependencies u ≡ true).
      b.ranked id u (rw (dependencies_of-entry actions id node here) m) in
    (
      ground (arith, own, =?_refl id),
      λ u m. (ground (arith, below u m, list_beq_iff u id), known u m),
      IsBuilt-IsSound_onto actions todo b d.1
          (λ k n h. inside k n (ground (arith, h, get-none_iff todo id, list_beq_iff id k, d.0))),
    )

-- The planners' actions meet what the order of actions and the scheduler want of a plan.
pub IsBuilt-IsWellTyped : (actions : Actions) → IsBuilt actions → IsWellTyped actions
IsBuilt-IsWellTyped actions b = record {
  keys_distinct = b.keys_distinct;
  dependencies_distinct = b.dependencies_distinct;
}

pub IsBuilt-order :
    (actions : Actions)
    → IsBuilt actions
    → (order : List ActionId) × (topological_action_order actions ≡ some (ok order))
IsBuilt-order actions b =
    (topological_action_order_iff actions (IsBuilt-IsWellTyped actions b)).1
      (IsBuilt-IsSound_onto actions actions b b.keys_distinct (λ k n h. h), (b.rank, b.ranked))
