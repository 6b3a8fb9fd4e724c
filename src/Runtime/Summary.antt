-- ===== src/Runtime/Summary.antt =====
-- crates/susun-runtime/src/report.rs: the summary of a report at the end of a run.
use susun.Prelude.{
  ℕ, suc, ◌+◌, ◌≡◌, refl, ◌∙◌, Bool, true, false, List, [], ◌∷◌, arith, list_eq, nat_eq,
  if◌then◌else◌, length,
}
use susun.IndexMap.{IndexMap, contains}
use susun.Plan.{ActionId}
use susun.Runtime.{
  ActionStatus, pending, ready, running, succeeded, failed, skipped_dependency_failed, cancelled,
  ActionExecutionResult, ExecutionSummary, ExecutionReport, empty_summary, count_status,
  count_results, refresh_summary, is_waiting, cancel_result, cancel_results,
  mark_remaining_cancelled,
}

-- The statuses that an action ends with.
abbrev pub is_final : ActionStatus → Bool
is_final succeeded = true
is_final failed = true
is_final skipped_dependency_failed = true
is_final cancelled = true
is_final _ = false

-- What the loop of a run leaves: a completed action has a final status, and any other one waits.
abbrev pub AreSettled :
    (completed : List ActionId) → IndexMap ActionId ActionExecutionResult → Type 0
AreSettled completed [] = Unit
AreSettled completed ((id, r) ∷ results) =
    ((if contains completed id then is_final r.status else is_waiting r.status) ≡ true)
    × AreSettled completed results

abbrev pub counted : ExecutionSummary → ℕ
counted s = s.succeeded + (s.failed + (s.skipped + s.cancelled))

counted-count_status :
    (st : ActionStatus) (s : ExecutionSummary)
    → is_final st ≡ true
    → counted (count_status st s) ≡ suc (counted s)
counted-count_status succeeded s h = ground arith
counted-count_status failed s h = ground arith
counted-count_status skipped_dependency_failed s h = ground arith
counted-count_status cancelled s h = ground arith
counted-count_status pending s h = ground arith
counted-count_status ready s h = ground arith
counted-count_status running s h = ground arith

cancel_result-is_final :
    (now : ℕ) (completed : List ActionId) (id : ActionId) (r : ActionExecutionResult)
    → (if contains completed id then is_final r.status else is_waiting r.status) ≡ true
    → is_final (cancel_result now completed id r).status ≡ true
cancel_result-is_final now completed id r h = ground arith

counted-cancel_results :
    (now : ℕ) (completed : List ActionId) (results : IndexMap ActionId ActionExecutionResult)
    (s : ExecutionSummary)
    → AreSettled completed results
    → counted (count_results (cancel_results now completed results) s) ≡ counted s + length results
unfolding count_results cancel_results
counted-cancel_results now completed [] s h = ground arith
counted-cancel_results now completed ((id, r) ∷ results) s h =
    let st = (cancel_result now completed id r).status in
    ground (
      arith,
      counted-cancel_results now completed results (count_status st s) h.1,
      counted-count_status st s (cancel_result-is_final now completed id r h.0),
    )

total-count_status :
    (st : ActionStatus) (s : ExecutionSummary) → (count_status st s).total_actions ≡ s.total_actions
total-count_status succeeded s = refl
total-count_status failed s = refl
total-count_status skipped_dependency_failed s = refl
total-count_status cancelled s = refl
total-count_status pending s = refl
total-count_status ready s = refl
total-count_status running s = refl

total-count_results :
    (results : IndexMap ActionId ActionExecutionResult) (s : ExecutionSummary)
    → (count_results results s).total_actions ≡ s.total_actions
unfolding count_results
total-count_results [] s = refl
total-count_results ((id, r) ∷ results) s =
    total-count_results results (count_status r.status s) ∙ total-count_status r.status s

length-cancel_results :
    (now : ℕ) (completed : List ActionId) (results : IndexMap ActionId ActionExecutionResult)
    → length (cancel_results now completed results) ≡ length results
unfolding cancel_results
length-cancel_results now completed [] = refl
length-cancel_results now completed ((id, r) ∷ results) =
    ground (arith, length-cancel_results now completed results)

-- If at the end of a run every completed action has a final status and every other one waits, then the
-- summary counts every action of the report exactly once: as succeeded, failed, skipped or cancelled.
pub counted-mark_remaining_cancelled :
    (now : ℕ) (report : ExecutionReport) (completed : List ActionId)
    → AreSettled completed report.actions
    → counted (refresh_summary (mark_remaining_cancelled now report completed)).summary
      ≡ (refresh_summary (mark_remaining_cancelled now report completed)).summary.total_actions
unfolding refresh_summary mark_remaining_cancelled
counted-mark_remaining_cancelled now report completed h =
    let left = cancel_results now completed report.actions in
    omega (
      arith,
      counted-cancel_results now completed report.actions (empty_summary (length left)) h,
      total-count_results left (empty_summary (length left)),
      length-cancel_results now completed report.actions,
    )

pub total_actions-refresh_summary :
    (now : ℕ) (report : ExecutionReport) (completed : List ActionId)
    → (refresh_summary (mark_remaining_cancelled now report completed)).summary.total_actions
      ≡ length report.actions
unfolding refresh_summary mark_remaining_cancelled
total_actions-refresh_summary now report completed =
    let left = cancel_results now completed report.actions in
    total-count_results left (empty_summary (length left))
    ∙ length-cancel_results now completed report.actions
