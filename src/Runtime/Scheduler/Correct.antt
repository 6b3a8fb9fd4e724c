-- ===== src/Runtime/Scheduler/Correct.antt =====
-- crates/susun-runtime/src/runtime.rs: `apply_cancellable_inner`, from its first state on.
use susun.Prelude.{
  ℕ, suc, ◌*◌, ◌≤◌, ◌<◌, ◌≡◌, sym, ◌∙◌, ap, true, false, some, List, [], ◌∷◌, ◌++◌, arith, list_eq,
  nat_eq, ltb→lt, lt→ltb, inl, inr, Bool-cases, ◌⊎◌, length, length-append,
}
use mathlib.Core.Path.{subst}
use susun.IndexMap.{IndexMap, contains, contains-append, length-remove, keys}
use susun.Engine.{EngineSnapshot}
use susun.Plan.{ActionId}
use susun.Plan.Execution.{ExecutionPlan}
use susun.Plan.Dag.{ok, topological_action_order}
use susun.Plan.Dag.Filled.{dependencies_of}
use susun.Plan.Dag.Correct.{IsWellTyped, length-keys, topological_action_order_sound}
use susun.Kahn.Counting.{depends}
use susun.Kahn.Run.{index, Ends, complete_of_ranked, complete_iff}
use susun.Runtime.{ActionStatus, pending, pending_report}
use susun.Runtime.Summary.{counted, counted-mark_remaining_cancelled, total_actions-refresh_summary}
use susun.Runtime.Scheduler.{
  RunState, start, launch, launch_action, finish, has_ended, final_report, Step, Reach, here, next,
  launched, finished, token_cancelled, release_dependents, skip,
}
use susun.Runtime.Scheduler.Invariant.{status_of, is_skipped, IsPlanned, RunInv}
use susun.Runtime.Scheduler.Moves.{running_queued, queued_started}
use susun.Runtime.Scheduler.Reached.{front_cases, Reach-RunInv}
use susun.Runtime.Scheduler.Starting.{planned_edges, planned, start-RunInv}
use susun.Runtime.Scheduler.Outcomes.{AllSucceeded, AllSucceeded-of, SomeLost-of}
use susun.Runtime.Scheduler.Abstract.{Decides, Refines, Step-Refines}
use susun.Runtime.Scheduler.Progress.{rounds, rounds_le, launch_total, Step-of}
use susun.Runtime.Scheduler.Reporting.{
  report_keys, keys-pending_actions, Reach-keys, AreSettled-report,
}

module _ (plan : ExecutionPlan) (typed : IsWellTyped plan.actions) (order : List ActionId)
    (returned : topological_action_order plan.actions ≡ some (ok order)) (snapshot : EngineSnapshot)
    (max_concurrency : ℕ) where
  edges : IndexMap ActionId (List ActionId)
  edges = planned_edges plan typed order returned

  p : IsPlanned plan.actions edges
  unfolding edges
  p = planned plan typed order returned

  inv_at_start : RunInv plan.actions edges (start plan snapshot order)
  unfolding edges
  inv_at_start = start-RunInv plan typed order returned snapshot

  module _ (s : RunState) (r : Reach plan max_concurrency (start plan snapshot order) s) where
    inv : RunInv plan.actions edges s
    inv = Reach-RunInv plan edges p max_concurrency (start plan snapshot order) s inv_at_start r

    -- If no key and no dependency of an action occurs twice in the plan, and the plan has an order, then in
    -- every state that the loop reaches, each dependency of an action that runs has succeeded, as the
    -- report says.
    pub running_dependencies_succeeded :
        (k : ActionId)
        → contains s.running k ≡ true
        → AllSucceeded (status_of s.report) (dependencies_of plan.actions k)
    running_dependencies_succeeded k runs =
        AllSucceeded-of plan.actions edges p s inv k
          (queued_started plan.actions edges p s inv k
            (running_queued plan.actions edges p s inv k runs))
          (inv.running_clear k runs)

    -- If no key and no dependency of an action occurs twice in the plan, and the plan has an order, then in
    -- every state that the loop reaches, the report says of each completed action of the plan that it was
    -- skipped, and a dependency of it ended without success, or that it succeeded or failed, and all its
    -- dependencies succeeded; of each other action it says that it is pending.
    pub reported_outcome :
        (k : ActionId)
        → contains (keys plan.actions) k ≡ true
        → ((contains s.completed k ≡ true)
            × (st : ActionStatus) × (status_of s.report k ≡ some st)
            × Decides (status_of s.report) (dependencies_of plan.actions k) st)
          ⊎ ((contains s.completed k ≡ false) × (status_of s.report k ≡ some pending))
    reported_outcome k known = elim (Bool-cases (contains s.completed k)) [
      | inr new ↦ inr (new, inv.waiting k known new)
      | inl old ↦
          let o = inv.settled k old in
          let started : contains (s.completed ++ (s.running ++ s.ready)) k ≡ true =
            ground (arith, contains-append s.completed (s.running ++ s.ready) k, old) in
          inl (
            old,
            o.status,
            o.reported,
            elim o.decided [
              | inl good ↦ inr (
                inl good,
                AllSucceeded-of plan.actions edges p s inv k started
                    (o.skipped_iff ∙ ap is_skipped good),
              )
              | inr (inl bad) ↦ inr (
                inr bad,
                AllSucceeded-of plan.actions edges p s inv k started
                    (o.skipped_iff ∙ ap is_skipped bad),
              )
              | inr (inr lost) ↦ inl (
                lost,
                SomeLost-of plan.actions edges p s inv k started
                    (o.skipped_iff ∙ ap is_skipped lost),
              )
            ],
          )
    ]

    -- If no key and no dependency of an action occurs twice in the plan, and the plan has an order, then in
    -- every state that the loop reaches, a round of the inner loop does not end in the error
    -- `InternalInvariant`.
    pub launch_no_error : (now : ℕ) → (t : RunState) × (launch plan now s.ready s ≡ some t)
    launch_no_error now = launch_total plan edges p max_concurrency s inv now

    -- If no key and no dependency of an action occurs twice in the plan, and the plan has an order, then
    -- every step from a state that the loop reaches is a step of an abstract machine, which keeps for each
    -- action no more than its outcome: the step leaves all outcomes, or gives one open action of
    -- the plan, all of whose dependencies have an outcome, the outcome that they allow.
    pub Reach-Refines : (t : RunState) → Step plan max_concurrency s t → Refines plan.actions s t
    Reach-Refines t step = Step-Refines plan edges p s inv max_concurrency t step

    -- If no key and no dependency of an action occurs twice in the plan, and the plan has an order, then
    -- the loop gets to any state in at most twice as many rounds as the plan has actions, whatever the
    -- engine returns; the cancellation of the token is not counted.
    pub rounds_bound : rounds r ≤ 2 * length (keys plan.actions)
    rounds_bound =
        rounds_le plan edges p max_concurrency (start plan snapshot order) inv_at_start s r

    -- If no key and no dependency of an action occurs twice in the plan, and the plan has an order, then
    -- the loop is never stuck: a reached state in which it has not ended has a next step that counts as a
    -- round.
    pub not_stuck :
        has_ended max_concurrency s ≡ false
        → (t : RunState) × (step : Step plan max_concurrency s t) × (rounds (next r step)
            ≡ suc (rounds r))
    not_stuck more =
        let (t, step, counts) = Step-of plan edges p max_concurrency s inv more in
        (t, step, counts (start plan snapshot order) r)

    rank_kept :
        (k u : ActionId)
        → contains (keys plan.actions) k ≡ true
        → contains (keys plan.actions) u ≡ true
        → depends edges k u ≡ true
        → index order u < index order k
    rank_kept k u known needed d =
        (topological_action_order_sound plan.actions typed order returned).2 k u
          (rw (← p.edges_eq k u) d)

    -- If no key and no dependency of an action occurs twice in the plan, the plan has an order, and at
    -- least one action may run at a time, then at the end of a run that was not cancelled, every action of
    -- the plan is completed.
    pub all_completed :
        0 < max_concurrency
        → has_ended max_concurrency s ≡ true
        → s.cancelled ≡ false
        → (k : ActionId) → contains (keys plan.actions) k ≡ true
        → contains s.completed k ≡ true
    all_completed some_run ended uncancelled = elim (front_cases s.running) [
      | inr (id, rest, front) ↦ absurd (ground (arith, front, ended))
      | inl none_run ↦ elim (front_cases s.ready) [
        | inr (id, rest, front) ↦
            absurd (
              ground
                (arith, none_run, front, ended, uncancelled, lt→ltb 0 max_concurrency some_run))
        | inl none_ready ↦
            let ends : Ends edges (keys plan.actions) p.graph s.completed = record {
              indegree = s.graph.remaining_dependencies;
              inv = rw (none_run, none_ready) at inv.kahn;
            } in
            (complete_iff edges (keys plan.actions) p.graph s.completed ends).0 (
              complete_of_ranked edges (keys plan.actions) p.graph s.completed ends (index order)
                rank_kept)
      ]
    ]

    report_keys_eq : report_keys s ≡ keys plan.actions
    unfolding start pending_report
    report_keys_eq =
        Reach-keys plan edges p max_concurrency (start plan snapshot order) s inv_at_start
          (keys-pending_actions (keys plan.actions)) r

    -- If no key and no dependency of an action occurs twice in the plan, and the plan has an order, then
    -- the summary of the report that is returned, from any state that the loop reaches, counts every action
    -- of the plan once: as succeeded, failed, skipped or cancelled.
    pub final_report_counted :
        (now : ℕ) → counted (final_report now s).summary ≡ length (keys plan.actions)
    unfolding final_report
    final_report_counted now =
        counted-mark_remaining_cancelled now s.report s.completed
          (AreSettled-report plan edges p s inv report_keys_eq typed.keys_distinct)
        ∙ total_actions-refresh_summary now s.report s.completed
        ∙ sym (length-keys s.report.actions)
        ∙ ap length report_keys_eq

length-launch :
    (plan : ExecutionPlan) (now : ℕ) (queue : List ActionId) (s t : RunState)
    → launch plan now queue s ≡ some t
    → length t.running ≤ suc (length s.running)
unfolding launch launch_action skip release_dependents
length-launch plan now [] s t h = ground (arith, h)
length-launch plan now (id ∷ rest) s t h = ground (arith, h, length-append s.running (id ∷ []))

-- In every state that the loop reaches, at most `max_concurrency` actions run.
pub running_bound :
    (plan : ExecutionPlan) (order : List ActionId) (snapshot : EngineSnapshot) (max_concurrency : ℕ)
    (s : RunState)
    → Reach plan max_concurrency (start plan snapshot order) s
    → length s.running ≤ max_concurrency
unfolding start finish release_dependents
running_bound plan order snapshot max_concurrency s here = omega arith
running_bound plan order snapshot max_concurrency u (next {t} r (launched now can to)) = omega (
  arith,
  length-launch plan now t.ready t u to,
  ltb→lt (length t.running) max_concurrency (ground (arith, can)),
)
running_bound plan order snapshot max_concurrency u
      (next {t} r (finished id node result full runs found returned to)) =
    subst (λ u. length u.running ≤ max_concurrency) (sym to)
      (omega (
        arith,
        length-remove id t.running runs,
        running_bound plan order snapshot max_concurrency t r,
      ))
running_bound plan order snapshot max_concurrency u (next {t} r (token_cancelled to)) =
    subst (λ u. length u.running ≤ max_concurrency) (sym to)
      (running_bound plan order snapshot max_concurrency t r)
