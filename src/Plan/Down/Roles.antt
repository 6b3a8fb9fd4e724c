-- ===== src/Plan/Down/Roles.antt =====
-- crates/susun-planner/src/down/mod.rs: what each action of a teardown does and waits for.
use susun.Prelude.{
  ◌≡◌, sym, ◌∙◌, ap, true, false, some, List, Text, arith, list_eq, nat_eq, ◌=?◌, list_beq_iff,
  Bool-cases, inl, inr,
}
use susun.IndexMap.{contains, get, get-none_iff}
use susun.Engine.{ServiceInstanceId, NetworkIdentity, VolumeIdentity}
use susun.Plan.{
  ActionId, stop_container, remove_container, remove_network, remove_volume, no_op, PlanActionNode,
}
use susun.Plan.Input.{Actions}
use susun.Plan.Built.{Inserted}

-- The actions of a service: the container is removed behind its stop. `removals` are the ids of the
-- removals of containers.
pub data ServiceRole (actions : Actions) (removals : List ActionId) (k : ActionId)
    (n : PlanActionNode) : Type 0 where
  stops : (i : ServiceInstanceId) → n.action ≡ stop_container i → ServiceRole actions removals k n
  removes :
      (i : ServiceInstanceId) (j : ActionId) (m : PlanActionNode)
      → n.action ≡ remove_container i
      → contains removals k ≡ true
      → contains n.dependencies j ≡ true
      → get actions j ≡ some m
      → m.action ≡ stop_container i
      → ServiceRole actions removals k n

-- A network or a volume is removed behind all containers.
pub data Role (actions : Actions) (removals : List ActionId) (k : ActionId) (n : PlanActionNode)
    : Type 0 where
  of_service : ServiceRole actions removals k n → Role actions removals k n
  of_network :
      (i : NetworkIdentity)
      → n.action ≡ remove_network i
      → ((j : ActionId) → contains removals j ≡ true → contains n.dependencies j ≡ true)
      → Role actions removals k n
  of_volume :
      (i : VolumeIdentity)
      → n.action ≡ remove_volume i
      → ((j : ActionId) → contains removals j ≡ true → contains n.dependencies j ≡ true)
      → Role actions removals k n
  idle :
      (resource description : Text)
      → n.action ≡ no_op resource description
      → Role actions removals k n

-- An insertion under a new id leaves what is there.
get-kept :
    (actions : Actions) (node : PlanActionNode) (next : Actions) (j : ActionId) (m : PlanActionNode)
    → Inserted actions node next
    → get actions j ≡ some m
    → get next j ≡ some m
get-kept actions node next j m i h =
    let other : (node.id =? j) ≡ false =
      ground (arith, i.new, get-none_iff actions j, list_beq_iff node.id j, h) in
    i.others j other ∙ h

ServiceRole-kept :
    (actions : Actions) (node : PlanActionNode) (next : Actions) (removals more : List ActionId)
    (k : ActionId) (n : PlanActionNode)
    → Inserted actions node next
    → ((j : ActionId) → contains removals j ≡ true → contains more j ≡ true)
    → ServiceRole actions removals k n
    → ServiceRole next more k n
ServiceRole-kept actions node next removals more k n i grow (stops s a) = stops s a
ServiceRole-kept actions node next removals more k n i grow (removes s j m a r d g b) =
    removes s j m a (grow k r) d (get-kept actions node next j m i g) b

Role-kept :
    (actions : Actions) (node : PlanActionNode) (next : Actions) (removals : List ActionId)
    (k : ActionId) (n : PlanActionNode)
    → Inserted actions node next
    → Role actions removals k n
    → Role next removals k n
Role-kept actions node next removals k n i (of_service r) =
    of_service (ServiceRole-kept actions node next removals removals k n i (λ j h. h) r)
Role-kept actions node next removals k n i (of_network s a d) = of_network s a d
Role-kept actions node next removals k n i (of_volume s a d) = of_volume s a d
Role-kept actions node next removals k n i (idle r d a) = idle r d a

-- The roles of all entries after an insertion, from that of the new one.
pub ServiceRoles-Inserted :
    (actions : Actions) (node : PlanActionNode) (next : Actions) (removals more : List ActionId)
    → Inserted actions node next
    → ((j : ActionId) → contains removals j ≡ true → contains more j ≡ true)
    → ((k : ActionId) (n : PlanActionNode)
        → get actions k ≡ some n
        → ServiceRole actions removals k n)
    → ServiceRole next more node.id node
    → (k : ActionId) (n : PlanActionNode) → get next k ≡ some n
    → ServiceRole next more k n
ServiceRoles-Inserted actions node next removals more i grow roles role k n h =
    elim (Bool-cases (node.id =? k)) [
      | inl same ↦
          let is_key = (list_beq_iff node.id k).0 same in
          let is_node : node ≡ n =
            ground (arith, i.entry, ap (λ (j : ActionId). get next j) is_key, h) in
          rw (← is_key, ← is_node) role
      | inr other ↦
          ServiceRole-kept actions node next removals more k n i grow
            (roles k n (sym (i.others k other) ∙ h))
    ]

pub Roles-inserted :
    (actions : Actions) (node : PlanActionNode) (next : Actions) (removals : List ActionId)
    → Inserted actions node next
    → ((k : ActionId) (n : PlanActionNode) → get actions k ≡ some n → Role actions removals k n)
    → Role next removals node.id node
    → (k : ActionId) (n : PlanActionNode) → get next k ≡ some n
    → Role next removals k n
Roles-inserted actions node next removals i roles role k n h = elim (Bool-cases (node.id =? k)) [
  | inl same ↦
      let is_key = (list_beq_iff node.id k).0 same in
      let is_node : node ≡ n =
        ground (arith, i.entry, ap (λ (j : ActionId). get next j) is_key, h) in
      rw (← is_key, ← is_node) role
  | inr other ↦ Role-kept actions node next removals k n i (roles k n (sym (i.others k other) ∙ h))
]
