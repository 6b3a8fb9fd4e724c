-- ===== src/Plan/Yields.antt =====
-- crates/susun-planner: results of which the only error is a collision of two action ids.
use susun.Prelude.{◌≡◌, inl, inr, refl, true, false, some, Bool-cases, list_eq, nat_eq}
use susun.IndexMap.{contains, keys, contains_key-keys, insert}
use susun.Plan.{ActionId, PlanActionNode, PlanError, action_id_collision}
use susun.Plan.Dag.{PlanResult, ok, err, ◌>>=◌, validate_action_dag}
use susun.Plan.Input.{Actions, insert_action}
use susun.Plan.Built.{IsBuilt, IsReady, Inserted, insert_action-Inserted, IsBuilt-order}

-- A value with the property `P`, or an error with the property `E`.
pub data Yields {A : Type 0} (E : PlanError → Type 0) (P : A → Type 0) : PlanResult A → Type 0 where
  yields : {a : A} → P a → Yields E P (ok a)
  fails : {e : PlanError} → E e → Yields E P (err e)

module _ {E : PlanError → Type 0} where
  pub Yields->>= :
      {A B : Type 0} {P : A → Type 0} {Q : B → Type 0} {m : PlanResult A} (f : A → PlanResult B)
      → Yields E P m
      → ((a : A) → P a → Yields E Q (f a))
      → Yields E Q (m >>= f)
  Yields->>= f (yields {a} p) next = next a p
  Yields->>= f (fails e) next = fails e

  pub Yields-map :
      {A : Type 0} {P Q : A → Type 0} {m : PlanResult A}
      → Yields E P m
      → ((a : A) → P a → Q a)
      → Yields E Q m
  Yields-map (yields {a} p) f = yields (f a p)
  Yields-map (fails e) f = fails e

  pub Yields-ok :
      {A : Type 0} {P : A → Type 0} {m : PlanResult A} (a : A) → Yields E P m → m ≡ ok a → P a
  Yields-ok {P} a (yields {a = b} p) h = let same : b ≡ a = cc in rw same at p
  Yields-ok a (fails e) h = cc

  pub Yields-err :
      {A : Type 0} {P : A → Type 0} {m : PlanResult A} (e : PlanError)
      → Yields E P m
      → m ≡ err e
      → E e
  Yields-err e (yields p) h = cc
  Yields-err e (fails {e = d} p) h = let same : d ≡ e = cc in rw same at p

-- Two actions have one id.
abbrev pub IsCollision : PlanError → Type 0
IsCollision e = (id : ActionId) × (e ≡ action_id_collision id)

pub IsCollision-allowed : (id : ActionId) → IsCollision (action_id_collision id)
IsCollision-allowed id = (id, refl)

insert_action-new :
    (actions : Actions) (node : PlanActionNode)
    → contains (keys actions) node.id ≡ false
    → insert_action actions node ≡ ok (insert node.id node actions)
unfolding insert_action
insert_action-new actions node new = rw (contains_key-keys actions node.id, new) refl

insert_action-old :
    (actions : Actions) (node : PlanActionNode)
    → contains (keys actions) node.id ≡ true
    → insert_action actions node ≡ err (action_id_collision node.id)
unfolding insert_action
insert_action-old actions node old = rw (contains_key-keys actions node.id, old) refl

pub insert_action-Yields :
    {E : PlanError → Type 0} (allowed : (id : ActionId) → E (action_id_collision id))
    (actions : Actions) (node : PlanActionNode)
    → IsBuilt actions
    → IsReady actions node
    → Yields E (Inserted actions node) (insert_action actions node)
insert_action-Yields allowed actions node b ready =
    elim (Bool-cases (contains (keys actions) node.id)) [
      | inl old ↦ rw (insert_action-old actions node old) (fails (allowed node.id))
      | inr new ↦
          let e = insert_action-new actions node new in
          rw e
            (yields (insert_action-Inserted actions node (insert node.id node actions) b ready e))
    ]

-- What the planners build passes the validation.
pub validate_action_dag-ok :
    (actions : Actions) → IsBuilt actions → validate_action_dag actions ≡ some (ok tt)
unfolding validate_action_dag
validate_action_dag-ok actions b =
    let (order, returned) = IsBuilt-order actions b in rw (returned, validate_action_dag) refl
