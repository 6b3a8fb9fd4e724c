-- ===== src/Plan/Down/Removals.antt =====
-- crates/susun-planner/src/down/mod.rs: the removals of networks and volumes, behind those of containers.
use susun.Prelude.{
  ◌≡◌, refl, true, some, List, [], ◌∷◌, Text, arith, list_eq, nat_eq, Option-cases, inl, inr,
}
use susun.IndexMap.{
  contains, get, keys, from_iter_onto, from_iter_onto-IsDistinct, contains-from_iter_onto,
}
use susun.Plan.{ActionId, PlanActionNode}
use susun.Plan.Input.{PlanningInput, Actions}
use susun.Plan.Built.{IsBuilt, IsReady, Inserted}
use susun.Plan.Yields.{
  Yields, yields, Yields->>=, Yields-map, insert_action-Yields, IsCollision, IsCollision-allowed,
}
use susun.Plan.Down.{
  plan_one_network, plan_one_volume, plan_network_removal, plan_volume_removal, or_no_op,
}
use susun.Plan.Up.Grown.{Extends, Extends-trans, Inserted-Extends}
use susun.Plan.Down.Roles.{Role, of_network, of_volume, idle, Roles-inserted}
use susun.Plan.Ready.{no_dependency-IsReady}

-- The actions of a teardown, with the removals of containers, which `base` has already.
pub record IsTeardown (base : Actions) (removals : List ActionId) (actions : Actions) : Type 0 where
  pub built : IsBuilt actions
  pub removals_known :
      (j : ActionId) → contains removals j ≡ true → contains (keys actions) j ≡ true
  pub roles :
      (k : ActionId) (n : PlanActionNode) → get actions k ≡ some n → Role actions removals k n
  pub grown : Extends base actions

module _ (input : PlanningInput) (base : Actions) (removals : List ActionId) where
  behind_removals-IsReady :
      (actions : Actions) (node : PlanActionNode)
      → IsTeardown base removals actions
      → node.dependencies ≡ from_iter_onto [] removals
      → IsReady actions node
  unfolding contains
  behind_removals-IsReady actions node t e = record {
    distinct = rw e (from_iter_onto-IsDistinct [] removals tt);
    known = λ u m.
        t.removals_known u (ground (arith, rw e at m, contains-from_iter_onto [] removals u));
  }

  depends_on_removals :
      (j : ActionId) → contains removals j ≡ true → contains (from_iter_onto [] removals) j ≡ true
  unfolding contains
  depends_on_removals j h = ground (arith, contains-from_iter_onto [] removals j, h)

  Inserted-IsTeardown :
      (actions : Actions) (node : PlanActionNode) (next : Actions)
      → IsTeardown base removals actions
      → Inserted actions node next
      → Role next removals node.id node
      → IsTeardown base removals next
  Inserted-IsTeardown actions node next t i role = record {
    built = i.built;
    removals_known = λ j h. i.kept j (t.removals_known j h);
    roles = Roles-inserted actions node next removals i t.roles role;
    grown = Extends-trans base actions next t.grown (Inserted-Extends actions node next i);
  }

  plan_one_network-IsTeardown :
      (network_id : Text) (actions : Actions)
      → IsTeardown base removals actions
      → Yields IsCollision
          (IsTeardown base removals)
          (plan_one_network input removals network_id actions)
  unfolding plan_one_network
  plan_one_network-IsTeardown network_id actions t =
      elim (Option-cases (get input.snapshot.networks network_id)) [
        | inl absent ↦ rw (absent, plan_one_network) (yields t)
        | inr (network, found) ↦ elim (Option-cases network.network_identity) [
          | inl foreign ↦ rw (found, foreign, plan_one_network) (yields t)
          | inr (identity, own) ↦
              rw (found, own, plan_one_network)
                (Yields-map
                  (insert_action-Yields IsCollision-allowed actions _ t.built
                    (behind_removals-IsReady actions _ t refl))
                  (λ next i.
                    Inserted-IsTeardown actions _ next t i
                      (of_network identity refl depends_on_removals)))
        ]
      ]

  plan_one_volume-IsTeardown :
      (volume_id : Text) (actions : Actions)
      → IsTeardown base removals actions
      → Yields IsCollision
          (IsTeardown base removals)
          (plan_one_volume input removals volume_id actions)
  unfolding plan_one_volume
  plan_one_volume-IsTeardown volume_id actions t =
      elim (Option-cases (get input.snapshot.volumes volume_id)) [
        | inl absent ↦ rw (absent, plan_one_volume) (yields t)
        | inr (volume, found) ↦ elim (Option-cases volume.volume_identity) [
          | inl foreign ↦ rw (found, foreign, plan_one_volume) (yields t)
          | inr (identity, own) ↦
              rw (found, own, plan_one_volume)
                (Yields-map
                  (insert_action-Yields IsCollision-allowed actions _ t.built
                    (behind_removals-IsReady actions _ t refl))
                  (λ next i.
                    Inserted-IsTeardown actions _ next t i
                      (of_volume identity refl depends_on_removals)))
        ]
      ]

  pub plan_network_removal-IsTeardown :
      (ids : List Text) (actions : Actions)
      → IsTeardown base removals actions
      → Yields IsCollision
          (IsTeardown base removals)
          (plan_network_removal input ids removals actions)
  unfolding plan_network_removal
  plan_network_removal-IsTeardown [] actions t = yields t
  plan_network_removal-IsTeardown (id ∷ ids) actions t =
      Yields->>= _ (plan_one_network-IsTeardown id actions t)
        (λ next u. plan_network_removal-IsTeardown ids next u)

  pub plan_volume_removal-IsTeardown :
      (ids : List Text) (actions : Actions)
      → IsTeardown base removals actions
      → Yields IsCollision
          (IsTeardown base removals)
          (plan_volume_removal input ids removals actions)
  unfolding plan_volume_removal
  plan_volume_removal-IsTeardown [] actions t = yields t
  plan_volume_removal-IsTeardown (id ∷ ids) actions t =
      Yields->>= _ (plan_one_volume-IsTeardown id actions t)
        (λ next u. plan_volume_removal-IsTeardown ids next u)

  pub or_no_op-IsTeardown :
      (actions : Actions)
      → IsTeardown base removals actions
      → Yields IsCollision (IsTeardown base removals) (or_no_op input actions)
  unfolding or_no_op
  or_no_op-IsTeardown [] t =
      Yields-map
        (insert_action-Yields IsCollision-allowed [] _ t.built (no_dependency-IsReady [] _ refl))
        (λ next i. Inserted-IsTeardown [] _ next t i (idle _ _ refl))
  or_no_op-IsTeardown (a ∷ actions) t = yields t
