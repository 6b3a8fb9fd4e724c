-- ===== src/Runtime/Scheduler/Rounds.antt =====
-- crates/susun-runtime/src/runtime.rs: one round of the inner loop and the invariant.
use mathlib.Core.List.{append_assoc}
use mathlib.Core.Path.{subst}
use susun.Prelude.{
  ℕ, ◌≡◌, refl, sym, ◌∙◌, true, false, some, List, [], ◌∷◌, ◌++◌, arith, list_eq, nat_eq,
  list_beq_iff, ◌=?◌, =?_refl, if◌then◌else◌, inl, inr, Bool-cases, Option-cases,
}
use susun.IndexMap.{
  IndexMap, contains, contains-append, insert_set, contains-insert_set, get, get-insert, keys,
}
use susun.Plan.{ActionId, PlanActionNode}
use susun.Plan.Dag.Filled.{dependencies_of}
use susun.Kahn.{release, dependents_of}
use susun.Kahn.Invariant.{Inv}
use susun.Kahn.Anywhere.{skip-Inv}
use susun.Runtime.{pending, skipped_dependency_failed, ExecutionReport, mark_skipped}
use susun.Runtime.Scheduler.{RunState, any_failed, release_dependents, skip}
use susun.Runtime.Scheduler.Invariant.{status_of, any_failed_kept, IsPlanned, RunInv}
use susun.Runtime.Scheduler.Completing.{Completes, Completes-RunInv, completed_snoc, released_eq}
use susun.Runtime.Scheduler.Moves.{queued_new, queued_started}

status-mark_skipped :
    (now : ℕ) (report : ExecutionReport) (id k : ActionId)
    → status_of report id ≡ some pending
    → status_of (mark_skipped now report id) k
      ≡ (if id =? k then some skipped_dependency_failed else status_of report k)
unfolding mark_skipped
status-mark_skipped now report id k h = elim (Option-cases (get report.actions id)) [
  | inl free ↦ ground (arith, free, h)
  | inr (r, found) ↦ ground (
    arith,
    found,
    get-insert report.actions id k
        (record r { status = skipped_dependency_failed; finished_at = some now }),
  )
]

module _ (actions : IndexMap ActionId PlanActionNode) (edges : IndexMap ActionId (List ActionId))
    (p : IsPlanned actions edges) (s : RunState) (inv : RunInv actions edges s) (id : ActionId)
    (rest : List ActionId) (front : s.ready ≡ id ∷ rest) where
  pub front_queued : contains (s.running ++ s.ready) id ≡ true
  unfolding contains
  front_queued = rw front (ground (arith, contains-append s.running (id ∷ rest) id, =?_refl id))

  pub front_new : contains s.completed id ≡ false
  front_new = queued_new actions edges p s inv id front_queued

  pub front_node : contains (keys actions) id ≡ true
  front_node = inv.kahn.queue_nodes id (queued_started actions edges p s inv id front_queued)

  module _ (now : ℕ) (lost : any_failed (dependencies_of actions id) s.failed ≡ true) where
    pub skip-Completes :
        Completes actions edges p s inv id front_new (skip now id (record s { ready = rest }))
    unfolding skip release_dependents
    skip-Completes =
        let waiting = inv.waiting id front_node front_new in
        let started = queued_started actions edges p s inv id front_queued in
        record {
          completed_eq = λ k. contains-insert_set id s.completed k;
          failed_eq = λ k other. ground (arith, contains-insert_set id s.failed k, other);
          failed_kept = λ k m. any_failed_kept actions edges p s inv id k front_new m;
          running_sub = λ k m. m;
          report_eq =
              λ k other. ground (arith, status-mark_skipped now s.report id k waiting, other);
          outcome = record {
            status = skipped_dependency_failed;
            reported = ground (arith, status-mark_skipped now s.report id id waiting, =?_refl id);
            decided = inr (inr refl);
            counted_failed = ground (arith, contains-insert_set id s.failed id, =?_refl id);
            skipped_iff = any_failed_kept actions edges p s inv id id front_new started ∙ lost;
          };
        }

    skip_kahn :
        Inv edges
          (keys actions)
          ((skip now id (record s { ready = rest })).running
            ++ (skip now id (record s { ready = rest })).ready)
          (skip now id (record s { ready = rest })).graph.remaining_dependencies
          (skip now id (record s { ready = rest })).completed
    unfolding skip release_dependents
    skip_kahn =
        let step =
          skip-Inv edges (keys actions) id s.running rest s.graph.remaining_dependencies s.completed
            p.graph (rw front at inv.kahn) in
        subst (λ r. Inv edges (keys actions) (s.running ++ r.0) r.1 (insert_set id s.completed))
          (sym (released_eq actions edges p s inv id front_new rest front_queued))
          (subst
            (λ c.
              Inv edges (keys actions)
                (s.running
                  ++ (release (dependents_of edges id) rest s.graph.remaining_dependencies).0)
                (release (dependents_of edges id) rest s.graph.remaining_dependencies).1 c)
            (sym (completed_snoc actions edges p s inv id front_new)) step)

    pub skip-RunInv : RunInv actions edges (skip now id (record s { ready = rest }))
    unfolding skip release_dependents
    skip-RunInv =
        Completes-RunInv actions edges p s inv id front_new
          (skip now id (record s { ready = rest })) skip-Completes inv.edges_kept skip_kahn

  abbrev pub started : RunState
  started = record s { ready = rest; running = s.running ++ id ∷ [] }

  pub started-RunInv :
      any_failed (dependencies_of actions id) s.failed ≡ false → RunInv actions edges started
  unfolding contains
  started-RunInv clear = record {
    edges_kept = inv.edges_kept;
    kahn =
        subst (λ q. Inv edges (keys actions) q s.graph.remaining_dependencies s.completed)
          (sym (append_assoc s.running (id ∷ []) rest)) (rw front at inv.kahn);
    failed_completed = inv.failed_completed;
    running_clear = λ k m. elim (Bool-cases (id =? k)) [
      | inl same ↦ rw (← (list_beq_iff id k).0 same) clear
      | inr other ↦ inv.running_clear k (ground (arith, contains-append s.running (id ∷ []) k))
    ];
    waiting = inv.waiting;
    settled = λ k m.
        let o = inv.settled k m in
        record {
          status = o.status;
          reported = o.reported;
          decided = o.decided;
          counted_failed = o.counted_failed;
          skipped_iff = o.skipped_iff;
        };
  }
