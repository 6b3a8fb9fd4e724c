-- ===== src/Runtime/Scheduler/Reporting.antt =====
-- crates/susun-runtime/src/runtime.rs: the report has the actions of the plan, in their order.
use susun.Prelude.{
  ℕ, ◌≡◌, refl, sym, ◌∙◌, ap, true, some, List, [], ◌∷◌, arith, list_eq, nat_eq, list_beq_iff,
  =?_refl, inl, inr, Bool-cases, Option-cases, if◌then◌else◌,
}
use susun.IndexMap.{IndexMap, contains, IsDistinct, get, insert, keys, keys-insert, get-none_iff}
use susun.Plan.{ActionId}
use susun.Plan.Execution.{ExecutionPlan}
use susun.Runtime.{
  pending, skipped_dependency_failed, ActionExecutionResult, ExecutionReport, pending_actions,
  set_result, mark_skipped, is_waiting,
}
use susun.Runtime.Summary.{AreSettled, is_final}
use susun.Runtime.Scheduler.{
  RunState, finish, skip, launch, release_dependents, Step, launched, finished, token_cancelled,
  Reach, here, next,
}
use susun.Runtime.Scheduler.Invariant.{status_of, IsPlanned, RunInv}
use susun.Runtime.Scheduler.Moves.{running_queued, queued_started}
use susun.Runtime.Scheduler.Reached.{
  front_cases, some_inj, launch_none, skips, starts, Round-of, Reach-RunInv,
}

abbrev pub report_keys : RunState → List ActionId
report_keys s = keys s.report.actions

pub keys-pending_actions : (ids : List ActionId) → keys (pending_actions ids) ≡ ids
unfolding keys pending_actions
keys-pending_actions [] = refl
keys-pending_actions (id ∷ ids) = ap (λ xs. id ∷ xs) (keys-pending_actions ids)

keys-insert_old :
    (id : ActionId) (result : ActionExecutionResult)
    (results : IndexMap ActionId ActionExecutionResult)
    → contains (keys results) id ≡ true
    → keys (insert id result results) ≡ keys results
keys-insert_old id result results m = ground (arith, keys-insert results id result, m)

keys-mark_skipped :
    (now : ℕ) (report : ExecutionReport) (id : ActionId)
    → keys (mark_skipped now report id).actions ≡ keys report.actions
unfolding mark_skipped
keys-mark_skipped now report id = elim (Option-cases (get report.actions id)) [
  | inl free ↦ rw (free, mark_skipped) refl
  | inr (r, found) ↦
      rw (found, mark_skipped)
        (keys-insert_old id
          (record r { status = skipped_dependency_failed; finished_at = some now }) report.actions
          (ground (arith, found, get-none_iff report.actions id)))
]

module _ (plan : ExecutionPlan) (edges : IndexMap ActionId (List ActionId))
    (p : IsPlanned plan.actions edges) where
  module _ (s : RunState) (inv : RunInv plan.actions edges s) where
    launch-keys :
        (now : ℕ) (t : RunState)
        → launch plan now s.ready s ≡ some t
        → report_keys t ≡ report_keys s
    unfolding skip release_dependents
    launch-keys now t h = elim (front_cases s.ready) [
      | inl empty ↦ ap report_keys (sym (launch_none plan edges p now s.ready s t empty h))
      | inr (id, rest, front) ↦ elim (Round-of plan edges p s inv now id rest front) [
        | skips lost to ↦
            sym (ap report_keys (some_inj (sym to ∙ h))) ∙ keys-mark_skipped now s.report id
        | starts clear to ↦ sym (ap report_keys (some_inj (sym to ∙ h)))
      ]
    ]

    Step-keys :
        (max_concurrency : ℕ) (t : RunState)
        → report_keys s ≡ keys plan.actions
        → Step plan max_concurrency s t
        → report_keys t ≡ keys plan.actions
    unfolding finish release_dependents set_result
    Step-keys max_concurrency t same (launched now can to) = launch-keys now t to ∙ same
    Step-keys max_concurrency t same (finished id node result full runs found returned to) =
        ap report_keys to
        ∙ keys-insert_old id result s.report.actions (
            rw same (
              inv.kahn.queue_nodes id (
                queued_started plan.actions edges p s inv id
                  (running_queued plan.actions edges p s inv id runs))))
        ∙ same
    Step-keys max_concurrency t same (token_cancelled to) = ap report_keys to ∙ same

  pub Reach-keys :
      (max_concurrency : ℕ) (s t : RunState)
      → RunInv plan.actions edges s
      → report_keys s ≡ keys plan.actions
      → Reach plan max_concurrency s t
      → report_keys t ≡ keys plan.actions
  Reach-keys max_concurrency s t inv same here = same
  Reach-keys max_concurrency s u inv same (next {t} r step) =
      Step-keys t (Reach-RunInv plan edges p max_concurrency s t inv r) max_concurrency u
        (Reach-keys max_concurrency s t inv same r) step

  -- A state of the report for each action, as the counting of the summary wants it.
  settled_status :
      (s : RunState)
      → RunInv plan.actions edges s
      → (k : ActionId) (r : ActionExecutionResult) → contains (keys plan.actions) k ≡ true
      → status_of s.report k ≡ some r.status
      → (if contains s.completed k then is_final r.status else is_waiting r.status) ≡ true
  settled_status s inv k r known reported = elim (Bool-cases (contains s.completed k)) [
    | inl old ↦
        let o = inv.settled k old in
        let same : o.status ≡ r.status = some_inj (sym o.reported ∙ reported) in
        elim o.decided [
          | inl good ↦ rw (old, ← same, good) refl
          | inr (inl bad) ↦ rw (old, ← same, bad) refl
          | inr (inr lost) ↦ rw (old, ← same, lost) refl
        ]
    | inr new ↦
        let same : pending ≡ r.status = some_inj (sym (inv.waiting k known new) ∙ reported) in
        rw (new, ← same) refl
  ]

  AreSettled-of :
      (completed : List ActionId) (results : IndexMap ActionId ActionExecutionResult)
      → IsDistinct (keys results)
      → ((k : ActionId) (r : ActionExecutionResult)
          → get results k ≡ some r
          → (if contains completed k then is_final r.status else is_waiting r.status) ≡ true)
      → AreSettled completed results
  unfolding get keys
  AreSettled-of completed [] d h = tt
  AreSettled-of completed ((id, r) ∷ results) d h = (
    h id r (ground (arith, =?_refl id)),
    AreSettled-of completed results d.1 (λ k r' found.
        h k r' (ground (arith, found, list_beq_iff id k, d.0, get-none_iff results k))),
  )

  pub AreSettled-report :
      (s : RunState)
      → RunInv plan.actions edges s
      → report_keys s ≡ keys plan.actions
      → IsDistinct (keys plan.actions)
      → AreSettled s.completed s.report.actions
  AreSettled-report s inv same d =
      AreSettled-of s.completed s.report.actions (rw same d) (λ k r found.
        settled_status s inv k r
          (ap (λ ks. contains ks k) (sym same)
            ∙ ground (arith, found, get-none_iff s.report.actions k))
          (ground (arith, found)))
