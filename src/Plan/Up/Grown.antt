-- ===== src/Plan/Up/Grown.antt =====
-- crates/susun-planner/src/up: how the actions of a plan grow, by an insertion or by a new dependency.
use mathlib.Core.Path.{subst}
use susun.Prelude.{
  ◌≡◌, refl, sym, ◌∙◌, ap, true, false, ◌||◌, ◌&&◌, some, Option-cases, List, Text, arith, list_eq,
  nat_eq, ◌=?◌, =?_refl, list_beq_iff, Bool-cases, inl, inr,
}
use susun.IndexMap.{
  IndexMap, contains, get, insert, keys, get-insert, get-none_iff, insert_set, contains-insert_set,
  IsDistinct-insert_set, contains-keys-insert,
}
use susun.Plan.{ActionId, PlanAction, PlanActionNode}
use susun.Plan.Dag.Filled.{dependencies_of}
use susun.Plan.Input.{Actions}
use susun.Plan.Built.{
  IsBuilt, IsReady, Inserted, put-IsBuilt, dependencies_of-absent, dependencies_of-entry,
}
use susun.Plan.Up.Services.{add_dependency_to}

-- The plan has this action under the id.
pub record Does (actions : Actions) (k : ActionId) (action : PlanAction) : Type 0 where
  pub node : PlanActionNode
  pub found : get actions k ≡ some node
  pub same : node.action ≡ action

-- An action waits for another.
abbrev pub DependsOn : Actions → (k u : ActionId) → Type 0
DependsOn actions k u = contains (dependencies_of actions k) u ≡ true

-- No action is dropped or changed, and no dependency is dropped.
pub record Extends (actions next : Actions) : Type 0 where
  pub does : (k : ActionId) (a : PlanAction) → Does actions k a → Does next k a
  pub depends : (k u : ActionId) → DependsOn actions k u → DependsOn next k u

pub Extends-refl : (actions : Actions) → Extends actions actions
Extends-refl actions = record { does = λ k a d. d; depends = λ k u d. d }

pub Extends-trans : (a b c : Actions) → Extends a b → Extends b c → Extends a c
Extends-trans a b c f g = record {
  does = λ k x d. g.does k x (f.does k x d);
  depends = λ k u d. g.depends k u (f.depends k u d);
}

pub found-key {ℓ} :
    {V : Type ℓ} (m : IndexMap Text V) (k : Text) (v : V)
    → get m k ≡ some v
    → contains (keys m) k ≡ true
found-key m k v h = elim (Bool-cases (contains (keys m) k)) [
  | inl there ↦ there
  | inr absent ↦ let none_there = (get-none_iff m k).1 absent in cc
]

pub Does-key :
    (actions : Actions) (k : ActionId) (a : PlanAction)
    → Does actions k a
    → contains (keys actions) k ≡ true
Does-key actions k a d = found-key actions k d.node d.found

pub key-Does :
    (actions : Actions) (k : ActionId)
    → contains (keys actions) k ≡ true
    → (n : PlanActionNode) × (get actions k ≡ some n)
key-Does actions k h = elim (Option-cases (get actions k)) [
  | inl absent ↦ let gone = (get-none_iff actions k).0 absent in cc
  | inr found ↦ found
]

pub Extends-key :
    (actions next : Actions) (k : ActionId)
    → Extends actions next
    → contains (keys actions) k ≡ true
    → contains (keys next) k ≡ true
Extends-key actions next k x h =
    let (n, found) = key-Does actions k h in
    Does-key next k n.action (x.does k n.action (record { node = n; found = found; same = refl }))

dependencies_of-same :
    (actions next : Actions) (k : ActionId)
    → get next k ≡ get actions k
    → dependencies_of next k ≡ dependencies_of actions k
unfolding dependencies_of
dependencies_of-same actions next k h = rw (h, dependencies_of) refl

module _ (actions : Actions) (node : PlanActionNode) (next : Actions)
    (i : Inserted actions node next) where
  other-of : (k : ActionId) → contains (keys actions) k ≡ true → (node.id =? k) ≡ false
  other-of k h = ground (arith, i.new, h, list_beq_iff node.id k)

  pub dependencies_of-inserted :
      (k : ActionId) → (node.id =? k) ≡ false → dependencies_of next k ≡ dependencies_of actions k
  dependencies_of-inserted k other = dependencies_of-same actions next k (i.others k other)

  pub Inserted-Extends : Extends actions next
  Inserted-Extends = record {
    does = λ k a d. record {
      node = d.node;
      found = i.others k (other-of k (Does-key actions k a d)) ∙ d.found;
      same = d.same;
    };
    depends = λ k u d. elim (Bool-cases (contains (keys actions) k)) [
      | inl there ↦ rw (dependencies_of-inserted k (other-of k there)) d
      | inr gone ↦ let none_there = dependencies_of-absent actions k u gone in cc
    ];
  }

  pub Inserted-Does : Does next node.id node.action
  Inserted-Does = record { node = node; found = i.entry; same = refl }

  pub Inserted-DependsOn :
      (u : ActionId) → contains node.dependencies u ≡ true → DependsOn next node.id u
  Inserted-DependsOn u h = rw (dependencies_of-entry next node.id node i.entry) h

-- An action that no other waits for: it may get more dependencies.
pub record IsLast (actions : Actions) (id : ActionId) : Type 0 where
  pub built : IsBuilt actions
  pub there : contains (keys actions) id ≡ true
  pub unused : (k : ActionId) → contains (dependencies_of actions k) id ≡ false

-- `start_node.dependencies.insert(wait_id)`
module _ (actions : Actions) (id wait : ActionId) (last : IsLast actions id)
    (known : contains (keys actions) wait ≡ true) (apart : (wait =? id) ≡ false) where
  abbrev amended : PlanActionNode → PlanActionNode
  amended node = record node { dependencies = insert_set wait node.dependencies }

  add_dependency_to-found :
      (node : PlanActionNode)
      → get actions id ≡ some node
      → add_dependency_to id wait actions ≡ insert id (amended node) actions
  unfolding add_dependency_to
  add_dependency_to-found node found = rw (found, add_dependency_to) refl

  amended-IsReady :
      (node : PlanActionNode) → get actions id ≡ some node → IsReady actions (amended node)
  amended-IsReady node found =
      let e = dependencies_of-entry actions id node found in
      record {
        distinct =
            IsDistinct-insert_set wait node.dependencies
              (rw e at (last.built.dependencies_distinct id));
        known = λ u h.
            let old : contains node.dependencies u ≡ true → contains (keys actions) u ≡ true =
              λ m. last.built.known id u (rw e m) in
            ground (
              arith,
              h,
              contains-insert_set wait node.dependencies u,
              list_beq_iff wait u,
              known,
              old,
            );
      }

  amended-other :
      (node : PlanActionNode)
      → get actions id ≡ some node
      → contains (insert_set wait node.dependencies) id ≡ false
  amended-other node found =
      let e = dependencies_of-entry actions id node found in
      let own : contains node.dependencies id ≡ false = rw e at (last.unused id) in
      ground (arith, contains-insert_set wait node.dependencies id, own, apart)

  dependencies_of-amended :
      (node : PlanActionNode) (k u : ActionId)
      → get actions id ≡ some node
      → contains (dependencies_of (insert id (amended node) actions) k) u
        ≡ ((id =? k) && (wait =? u) || contains (dependencies_of actions k) u)
  unfolding dependencies_of
  dependencies_of-amended node k u found = ground (
    arith,
    get-insert actions id k (amended node),
    contains-insert_set wait node.dependencies u,
    list_beq_iff id k,
    dependencies_of-entry actions id node found,
  )

  amended-IsLast :
      (node : PlanActionNode)
      → get actions id ≡ some node
      → IsLast (insert id (amended node) actions) id
  amended-IsLast node found =
      let own = last.built.own_id id node found in
      let other : contains (amended node).dependencies node.id ≡ false =
        rw own (amended-other node found) in
      let built : IsBuilt (insert node.id (amended node) actions) =
        put-IsBuilt actions (amended node) last.built (amended-IsReady node found) other
          (λ k. rw own (last.unused k)) in
      record {
        built = subst (λ (j : ActionId). IsBuilt (insert j (amended node) actions)) own built;
        there = ground (arith, contains-keys-insert actions id (amended node) id, last.there);
        unused = λ k. ground (arith, dependencies_of-amended node k id found, last.unused k, apart);
      }

  amended-Extends :
      (node : PlanActionNode)
      → get actions id ≡ some node
      → Extends actions (insert id (amended node) actions)
  amended-Extends node found = record {
    does = λ k a d. elim (Bool-cases (id =? k)) [
      | inl here ↦
          let e = (list_beq_iff id k).0 here in
          let same : d.node ≡ node =
            ground (arith, ap (λ (j : ActionId). get actions j) e, found, d.found) in
          record {
            node = amended node;
            found = ground (arith, get-insert actions id k (amended node), here);
            same = ap (λ (n : PlanActionNode). n.action) (sym same) ∙ d.same;
          }
      | inr other ↦ record {
        node = d.node;
        found = ground (arith, get-insert actions id k (amended node), other, d.found);
        same = d.same;
      }
    ];
    depends = λ k u d. ground (arith, dependencies_of-amended node k u found, d);
  }

  pub add_dependency_to-IsLast : IsLast (add_dependency_to id wait actions) id
  add_dependency_to-IsLast =
      let (node, found) = key-Does actions id last.there in
      rw (add_dependency_to-found node found) (amended-IsLast node found)

  pub add_dependency_to-Extends : Extends actions (add_dependency_to id wait actions)
  add_dependency_to-Extends =
      let (node, found) = key-Does actions id last.there in
      rw (add_dependency_to-found node found) (amended-Extends node found)

  pub add_dependency_to-DependsOn : DependsOn (add_dependency_to id wait actions) id wait
  add_dependency_to-DependsOn =
      let (node, found) = key-Does actions id last.there in
      rw (add_dependency_to-found node found)
        (ground (arith, dependencies_of-amended node id wait found, =?_refl id, =?_refl wait))

-- No action waits for one that was just inserted.
pub Inserted-IsLast :
    (actions : Actions) (node : PlanActionNode) (next : Actions)
    → IsBuilt actions
    → IsReady actions node
    → Inserted actions node next
    → IsLast next node.id
Inserted-IsLast actions node next b ready i = record {
  built = i.built;
  there = i.added;
  unused = λ k. elim (Bool-cases (node.id =? k)) [
    | inl here ↦
        let e = (list_beq_iff node.id k).0 here in
        rw (← e, dependencies_of-entry next node.id node i.entry)
          (gone node.dependencies (ready.known node.id))
    | inr other ↦
        rw (dependencies_of-inserted actions node next i k other)
          (gone (dependencies_of actions k) (b.known k node.id))
  ];
}
  where
    gone :
        (dependencies : List ActionId)
        → (contains dependencies node.id ≡ true → contains (keys actions) node.id ≡ true)
        → contains dependencies node.id ≡ false
    gone dependencies h = elim (Bool-cases (contains dependencies node.id)) [
      | inl there ↦ cc (h there, i.new)
      | inr absent ↦ absent
    ]
