-- ===== src/Runtime/Scheduler/Moves.antt =====
-- crates/susun-runtime/src/runtime.rs: what one round of a loop does to the invariant.
use mathlib.Core.Path.{subst}
use susun.Prelude.{
  ◌≡◌, sym, true, false, some, List, ◌++◌, arith, list_eq, nat_eq, ◌=?◌, =?_refl, if◌then◌else◌,
  inl, inr, Bool-cases,
}
use susun.IndexMap.{
  IndexMap, contains, contains-append, insert_set, contains-insert_set, IsDistinct-left,
  IsDistinct-right, IsDistinct-apart, remove, contains-remove_eq, get-insert, keys,
}
use susun.Plan.{ActionId, PlanActionNode}
use susun.Kahn.{release, dependents_of}
use susun.Kahn.Invariant.{Inv}
use susun.Kahn.Anywhere.{take-Inv}
use susun.Runtime.{ActionExecutionResult, set_result}
use susun.Runtime.Scheduler.{RunState, release_dependents, finish, IsReturned}
use susun.Runtime.Scheduler.Invariant.{status_of, any_failed_kept, IsPlanned, RunInv}
use susun.Runtime.Scheduler.Completing.{Completes, Completes-RunInv, completed_snoc, released_eq}

module _ (actions : IndexMap ActionId PlanActionNode) (edges : IndexMap ActionId (List ActionId))
    (p : IsPlanned actions edges) (s : RunState) (inv : RunInv actions edges s) where
  -- A queued action is not completed.
  pub queued_new :
      (id : ActionId) → contains (s.running ++ s.ready) id ≡ true → contains s.completed id ≡ false
  queued_new id m = elim (Bool-cases (contains s.completed id)) [
    | inl old ↦
        cc (IsDistinct-apart s.completed (s.running ++ s.ready) id inv.kahn.queue_distinct old, m)
    | inr new ↦ new
  ]

  pub queued_started :
      (id : ActionId)
      → contains (s.running ++ s.ready) id ≡ true
      → contains (s.completed ++ (s.running ++ s.ready)) id ≡ true
  queued_started id m = ground (arith, contains-append s.completed (s.running ++ s.ready) id)

  pub running_queued :
      (id : ActionId) → contains s.running id ≡ true → contains (s.running ++ s.ready) id ≡ true
  running_queued id m = ground (arith, contains-append s.running s.ready id)

  pub not_failed : (id : ActionId) → contains s.completed id ≡ false → contains s.failed id ≡ false
  not_failed id new = elim (Bool-cases (contains s.failed id)) [
    | inl lost ↦ cc (inv.failed_completed id lost, new)
    | inr kept ↦ kept
  ]

  status-set_result :
      (id : ActionId) (result : ActionExecutionResult) (k : ActionId)
      → status_of (set_result s.report id result) k
        ≡ (if id =? k then some result.status else status_of s.report k)
  unfolding set_result
  status-set_result id result k = ground (arith, get-insert s.report.actions id k result)

  module _ (id : ActionId) (node : PlanActionNode) (result : ActionExecutionResult)
      (returned : IsReturned result) (m : contains s.running id ≡ true) where
    pub finish-Completes :
        (new : contains s.completed id ≡ false)
        → Completes actions edges p s inv id new (finish node id result s)
    unfolding finish release_dependents
    finish-Completes new =
        let started = queued_started id (running_queued id m) in
        record {
          completed_eq = λ k. contains-insert_set id s.completed k;
          failed_eq = λ k other. ground (arith, contains-insert_set id s.failed k, other);
          failed_kept =
              λ k started. ground (arith, any_failed_kept actions edges p s inv id k new started);
          running_sub = λ k kept. ground (
            arith,
            kept,
            contains-remove_eq id s.running k (
                IsDistinct-left s.running s.ready
                  (IsDistinct-right s.completed (s.running ++ s.ready) inv.kahn.queue_distinct)),
          );
          report_eq = λ k other. ground (arith, status-set_result id result k, other);
          outcome = record {
            status = result.status;
            reported = ground (arith, status-set_result id result id, =?_refl id);
            decided = elim returned [ inl good ↦ inl good | inr bad ↦ inr (inl bad) ];
            counted_failed =
                ground (arith, contains-insert_set id s.failed id, =?_refl id, not_failed id new);
            skipped_iff = elim returned [
              | inl good ↦ ground (
                arith,
                good,
                any_failed_kept actions edges p s inv id id new started,
                inv.running_clear id m,
              )
              | inr bad ↦ ground (
                arith,
                bad,
                any_failed_kept actions edges p s inv id id new started,
                inv.running_clear id m,
              )
            ];
          };
        }

    finish_kahn :
        contains s.completed id ≡ false
        → Inv edges
            (keys actions)
            ((finish node id result s).running ++ (finish node id result s).ready)
            (finish node id result s).graph.remaining_dependencies
            (finish node id result s).completed
    unfolding finish release_dependents
    finish_kahn new =
        let step =
          take-Inv edges (keys actions) id s.running s.ready s.graph.remaining_dependencies
            s.completed p.graph inv.kahn m in
        subst
          (λ r.
            Inv edges (keys actions) (remove id s.running ++ r.0) r.1 (insert_set id s.completed))
          (sym (released_eq actions edges p s inv id new s.ready (running_queued id m)))
          (subst
            (λ c.
              Inv edges (keys actions)
                (remove id s.running
                  ++ (release (dependents_of edges id) s.ready s.graph.remaining_dependencies).0)
                (release (dependents_of edges id) s.ready s.graph.remaining_dependencies).1 c)
            (sym (completed_snoc actions edges p s inv id new)) step)

    -- The future of an action ends.
    pub finish-RunInv : RunInv actions edges (finish node id result s)
    unfolding finish release_dependents
    finish-RunInv =
        let new = queued_new id (running_queued id m) in
        Completes-RunInv actions edges p s inv id new (finish node id result s)
          (finish-Completes new) inv.edges_kept (finish_kahn new)
