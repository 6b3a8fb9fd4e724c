-- ===== src/Runtime/Scheduler/Completing.antt =====
-- crates/susun-runtime/src/runtime.rs: an action is completed, by its future or because it is skipped.
use mathlib.Core.Path.{subst}
use susun.Prelude.{
  ◌≡◌, ◌∙◌, ap, true, false, ◌||◌, List, [], ◌∷◌, ◌++◌, arith, list_eq, nat_eq, list_beq_iff, ◌=?◌,
  inl, inr, Bool-cases,
}
use susun.IndexMap.{IndexMap, contains, contains-append, insert_set, keys}
use susun.Plan.{ActionId, PlanActionNode}
use susun.Plan.Dag.Filled.{dependencies_of}
use susun.Kahn.{release, dependents_of}
use susun.Kahn.Invariant.{Inv}
use susun.Kahn.Anywhere.{dependent_open}
use susun.Runtime.Graph.{release_all}
use susun.Runtime.Scheduler.{RunState, any_failed}
use susun.Runtime.Scheduler.Invariant.{status_of, release_all-release, IsPlanned, Outcome, RunInv}

module _ (actions : IndexMap ActionId PlanActionNode) (edges : IndexMap ActionId (List ActionId))
    (p : IsPlanned actions edges) (s : RunState) (inv : RunInv actions edges s) (id : ActionId)
    (new : contains s.completed id ≡ false) where
  -- The change of every set but the queue, when `id` is completed.
  pub record Completes (t : RunState) : Type 0 where
    pub completed_eq : (k : ActionId) → contains t.completed k ≡ (id =? k || contains s.completed k)
    pub failed_eq : (k : ActionId) → (id =? k) ≡ false → contains t.failed k ≡ contains s.failed k
    pub failed_kept :
        (k : ActionId)
        → contains (s.completed ++ (s.running ++ s.ready)) k ≡ true
        → any_failed (dependencies_of actions k) t.failed
          ≡ any_failed (dependencies_of actions k) s.failed
    pub running_sub : (k : ActionId) → contains t.running k ≡ true → contains s.running k ≡ true
    pub report_eq : (k : ActionId) → (id =? k) ≡ false → status_of t.report k ≡ status_of s.report k
    pub outcome : Outcome actions t id

  Outcome-kept :
      (t : RunState) (k : ActionId)
      → Completes t
      → (id =? k) ≡ false
      → contains s.completed k ≡ true
      → Outcome actions s k
      → Outcome actions t k
  Outcome-kept t k c other old o = record {
    status = o.status;
    reported = c.report_eq k other ∙ o.reported;
    decided = o.decided;
    counted_failed = c.failed_eq k other ∙ o.counted_failed;
    skipped_iff =
        c.failed_kept k (ground (arith, contains-append s.completed (s.running ++ s.ready) k))
        ∙ o.skipped_iff;
  }

  pub Completes-RunInv :
      (t : RunState)
      → Completes t
      → t.graph.dependents ≡ edges
      → Inv edges (keys actions) (t.running ++ t.ready) t.graph.remaining_dependencies t.completed
      → RunInv actions edges t
  Completes-RunInv t c kept kahn = record {
    edges_kept = kept;
    kahn = kahn;
    failed_completed = λ k m. elim (Bool-cases (id =? k)) [
      | inl same ↦ ground (arith, c.completed_eq k, same)
      | inr other ↦
          ground (arith, c.completed_eq k, c.failed_eq k, inv.failed_completed k, other, m)
    ];
    running_clear = λ k m.
        c.failed_kept k (
          ground (
            arith,
            contains-append s.completed (s.running ++ s.ready) k,
            contains-append s.running s.ready k,
            c.running_sub k m,
          ))
        ∙ inv.running_clear k (c.running_sub k m);
    waiting = λ k node m. ground (arith, c.completed_eq k, c.report_eq k, inv.waiting k node, m);
    settled = λ k m. elim (Bool-cases (id =? k)) [
      | inl same ↦ subst (Outcome actions t) ((list_beq_iff id k).0 same) c.outcome
      | inr other ↦
          let old : contains s.completed k ≡ true = ground (arith, c.completed_eq k, other, m) in
          Outcome-kept t k c other old (inv.settled k old)
    ];
  }

  -- `release_dependents` on a state in which `id` has just been completed, and stands in no queue.
  pub completed_snoc : insert_set id s.completed ≡ s.completed ++ id ∷ []
  unfolding insert_set
  completed_snoc = rw new

  dependents_apart :
      (d : ActionId)
      → contains (s.running ++ s.ready) id ≡ true
      → contains (dependents_of edges id) d ≡ true
      → contains (insert_set id s.completed) d ≡ false
  dependents_apart d queued m = rw completed_snoc (
      dependent_open edges (keys actions) id d (s.running ++ s.ready) s.graph.remaining_dependencies
        s.completed p.graph inv.kahn queued m)

  pub released_eq :
      (ready : List ActionId)
      → contains (s.running ++ s.ready) id ≡ true
      → release_all
          (dependents_of s.graph.dependents id)
          (insert_set id s.completed)
          ready
          s.graph.remaining_dependencies
        ≡ release (dependents_of edges id) ready s.graph.remaining_dependencies
  released_eq ready queued =
      ap
        (λ es.
          release_all (dependents_of es id) (insert_set id s.completed) ready
            s.graph.remaining_dependencies)
        inv.edges_kept
      ∙ release_all-release (dependents_of edges id) (insert_set id s.completed) ready
          s.graph.remaining_dependencies (λ d m. dependents_apart d queued m)
