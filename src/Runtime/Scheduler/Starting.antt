-- ===== src/Runtime/Scheduler/Starting.antt =====
-- crates/susun-runtime/src/runtime.rs: the state in front of the loop. `RuntimeGraph::new` fills the
-- tables that the planner's check of the graph fills.
use susun.Prelude.{
  ◌≡◌, refl, sym, ◌∙◌, ap, true, false, some, List, [], ◌∷◌, arith, list_eq, nat_eq, ◌=?◌,
  list_beq_iff, inl, inr, Bool-cases,
}
use mathlib.Core.Path.{subst}
use susun.IndexMap.{IndexMap, contains, get, keys, contains_key}
use susun.Engine.{EngineSnapshot}
use susun.Plan.{ActionId, PlanActionNode}
use susun.Plan.Execution.{ExecutionPlan}
use susun.Plan.Dag.{
  ok, err, DagTables, add_dependent, add_entry, check_dependencies, check_actions,
  topological_action_order,
}
use susun.Plan.Dag.Accepted.{check_actions_step, entered}
use susun.Plan.Dag.Correct.{
  IsWellTyped, depends_eq, g, known, counted, PlanResult-cases, checked, top_eq, order_checked_err,
  Accepted-of, no_tables, topological_action_order_sound,
}
use susun.Kahn.{ready_nodes}
use susun.Kahn.Invariant.{Inv}
use susun.Kahn.Start.{contains-ready_nodes, IsDistinct-ready_nodes, start-Inv}
use susun.Kahn.Anywhere.{Inv-perm}
use susun.Runtime.{pending_result, pending_actions, pending_report}
use susun.Runtime.Graph.{RuntimeGraph, enter, add_edge, add_edges, add_nodes, new_graph}
use susun.Runtime.Outputs.{outputs_of_snapshot}
use susun.Runtime.Scheduler.{RunState, start, any_failed}
use susun.Runtime.Scheduler.Invariant.{IsPlanned, RunInv}

abbrev as_graph : DagTables → RuntimeGraph
as_graph t = record { dependents = t.dependents; remaining_dependencies = t.indegree }

ok_inj : {A : Type 0} {a b : A} → ok a ≡ ok b → a ≡ b
ok_inj h = cc h

module _ (actions : IndexMap ActionId PlanActionNode) where
  add_edges-check_dependencies :
      (id : ActionId) (ds : List ActionId) (t t' : DagTables)
      → check_dependencies actions id ds t ≡ ok t'
      → add_edges ds id (as_graph t) ≡ as_graph t'
  unfolding check_dependencies add_edges add_dependent add_edge
  add_edges-check_dependencies id [] t t' h = ap as_graph (ok_inj h)
  add_edges-check_dependencies id (d ∷ ds) t t' h = elim (Bool-cases (d =? id)) [
    | inl self ↦ cc (rw (self, check_dependencies) at h)
    | inr other ↦ elim (Bool-cases (contains_key actions d)) [
      | inl has ↦
          add_edges-check_dependencies id ds (add_dependent d id t) t'
            (rw (other, has, check_dependencies) at h)
      | inr miss ↦ cc (rw (other, miss, check_dependencies) at h)
    ]
  ]

  add_nodes-check_actions :
      (todo : IndexMap ActionId PlanActionNode) (t t' : DagTables)
      → check_actions actions todo t ≡ ok t'
      → add_nodes todo (as_graph t) ≡ as_graph t'
  unfolding check_actions add_nodes enter add_entry
  add_nodes-check_actions [] t t' h = ap as_graph (ok_inj h)
  add_nodes-check_actions ((id, node) ∷ todo) t t' h =
      let (same, mid, checked, rest) = check_actions_step actions id node todo t t' h in
      ap (add_nodes todo)
        (add_edges-check_dependencies id node.dependencies (entered id node t) mid checked)
      ∙ add_nodes-check_actions todo mid t' rest

pending_status :
    (ids : List ActionId) (k : ActionId)
    → contains ids k ≡ true
    → get (pending_actions ids) k ≡ some (pending_result k)
unfolding pending_actions get contains
pending_status [] k m = ground arith
pending_status (id ∷ ids) k m = ground (arith, pending_status ids k, list_beq_iff id k)

module _ (plan : ExecutionPlan) (typed : IsWellTyped plan.actions) (order : List ActionId)
    (returned : topological_action_order plan.actions ≡ some (ok order)) where
  record Tables : Type 0 where
    t : DagTables
    checked_eq : checked plan.actions typed ≡ ok t

  tables : Tables
  tables = elim (PlanResult-cases (checked plan.actions typed)) [
    | inl (t, h) ↦ record { t = t; checked_eq = h }
    | inr (e, h) ↦
        cc (top_eq plan.actions typed (err e) h, order_checked_err plan.actions typed e, returned)
  ]

  pub planned_edges : IndexMap ActionId (List ActionId)
  planned_edges = tables.t.dependents

  new_graph_eq : new_graph plan.actions ≡ as_graph tables.t
  unfolding new_graph
  new_graph_eq =
      add_nodes-check_actions plan.actions plan.actions no_tables tables.t tables.checked_eq

  pub planned : IsPlanned plan.actions planned_edges
  unfolding planned_edges
  planned =
      let a = Accepted-of plan.actions typed tables.t tables.checked_eq in
      record {
        graph = g plan.actions typed tables.t a;
        edges_eq = depends_eq plan.actions typed tables.t a;
        known = known plan.actions typed tables.t a;
      }

  open tables use {t}

  ready_at_start : List ActionId
  ready_at_start = ready_nodes t.indegree order

  kahn_at_start : Inv planned_edges (keys plan.actions) ready_at_start t.indegree []
  unfolding planned_edges ready_at_start
  kahn_at_start =
      let a = Accepted-of plan.actions typed t tables.checked_eq in
      let (once, same, ranked) = topological_action_order_sound plan.actions typed order returned in
      Inv-perm t.dependents (keys plan.actions) (ready_nodes t.indegree (keys plan.actions))
        ready_at_start t.indegree []
        (start-Inv t.dependents (keys plan.actions) t.indegree (g plan.actions typed t a)
          (counted plan.actions typed t a))
        (IsDistinct-ready_nodes t.indegree order once)
        (λ k. ground (
          arith,
          contains-ready_nodes t.indegree order k,
          contains-ready_nodes t.indegree (keys plan.actions) k,
          same k,
        ))

  start_with : (snapshot : EngineSnapshot) (graph : RuntimeGraph) → RunState
  start_with snapshot graph = record {
    graph = graph;
    ready = ready_nodes graph.remaining_dependencies order;
    running = [];
    failed = [];
    completed = [];
    outputs = outputs_of_snapshot snapshot;
    report = pending_report plan.plan_id plan.actions;
    cancelled = false;
  }

  -- The invariant holds in front of the first round.
  pub start-RunInv :
      (snapshot : EngineSnapshot) → RunInv plan.actions planned_edges (start plan snapshot order)
  unfolding start start_with ready_at_start planned_edges contains any_failed pending_report
  start-RunInv snapshot =
      subst (λ graph. RunInv plan.actions planned_edges (start_with snapshot graph))
        (sym new_graph_eq)
        record {
          edges_kept = refl;
          kahn = kahn_at_start;
          failed_completed = λ k m. cc m;
          running_clear = λ k m. cc m;
          waiting = λ k node new. ground (arith, pending_status (keys plan.actions) k node);
          settled = λ k m. cc m;
        }
