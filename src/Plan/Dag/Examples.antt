-- ===== src/Plan/Dag/Examples.antt =====
-- A plan of two actions, and the theorems about the order at it.
use susun.Prelude.{
  ℕ, ◌≡◌, ◌↔◌, refl, some, List, [], ◌∷◌, text, list_eq, nat_eq, ◌=?◌, Bool-cases, inl, inr,
}
use susun.IndexMap.{IndexMap, contains, IsDistinct, get, keys, insert, insert_set, contains_key}
use susun.Kahn.Run.{index}
use susun.Plan.{
  ActionId, PlanActionNode, no_op, safe, resource_missing, invalid_dependency_reference,
}
use susun.Plan.Dag.{PlanResult, ok, err, topological_action_order}
use susun.Plan.Dag.Filled.{dependencies_of}
use susun.Plan.Dag.Accepted.{IsSound}
use susun.Plan.Dag.Correct.{
  IsWellTyped, IsRanked, topological_action_order_total, topological_action_order_sound,
  topological_action_order_iff,
}

abbrev node : ActionId → List ActionId → PlanActionNode
node id dependencies = record {
  id = id;
  action = no_op id (text "nothing");
  dependencies = dependencies;
  reason = record { code = resource_missing; message = [] };
  safety = safe;
}

abbrev two_actions : IndexMap ActionId PlanActionNode
two_actions = (text "b", node (text "b") (text "a" ∷ [])) ∷ (text "a", node (text "a") []) ∷ []

abbrev a_then_b : List ActionId
a_then_b = text "a" ∷ text "b" ∷ []

order_two : topological_action_order two_actions ≡ some (ok a_then_b)
unfolding topological_action_order get keys contains insert insert_set contains_key
order_two = refl

order_missing :
    topological_action_order ((text "b", node (text "b") (text "a" ∷ [])) ∷ [])
    ≡ some (err (invalid_dependency_reference (text "b") (text "a")))
unfolding topological_action_order get keys contains insert insert_set contains_key
order_missing = refl

two_actions-IsWellTyped : IsWellTyped two_actions
unfolding dependencies_of get keys contains
two_actions-IsWellTyped = record {
  keys_distinct = (refl, (refl, tt));
  dependencies_distinct = λ id. elim (Bool-cases (text "b" =? id)) [
    | inl b ↦ rw b (refl, tt)
    | inr other ↦ elim (Bool-cases (text "a" =? id)) [
      | inl a ↦ rw (other, a) tt
      | inr neither ↦ rw (other, neither) tt
    ]
  ];
}

topological_action_order_total_example :
    (x : PlanResult (List ActionId)) × (topological_action_order two_actions ≡ some x)
topological_action_order_total_example =
    topological_action_order_total two_actions two_actions-IsWellTyped

topological_action_order_sound_example :
    IsDistinct a_then_b
    × ((k : ActionId) → contains a_then_b k ≡ contains (keys two_actions) k)
    × IsRanked two_actions (index a_then_b)
topological_action_order_sound_example =
    topological_action_order_sound two_actions two_actions-IsWellTyped a_then_b order_two

topological_action_order_iff_example :
    ((order : List ActionId) × (topological_action_order two_actions ≡ some (ok order)))
    ↔ (IsSound two_actions two_actions × ((rank : ActionId → ℕ) × IsRanked two_actions rank))
topological_action_order_iff_example =
    topological_action_order_iff two_actions two_actions-IsWellTyped
