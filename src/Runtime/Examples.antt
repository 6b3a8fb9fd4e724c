-- ===== src/Runtime/Examples.antt =====
-- A run of three actions that was cancelled after two, and its summary.
use susun.Prelude.{◌≡◌, refl, some, List, [], ◌∷◌, text, list_eq, nat_eq}
use susun.IndexMap.{contains, get, insert}
use susun.Plan.{ActionId}
use susun.Runtime.{
  ExecutionReport, succeeded, skipped_dependency_failed, ActionExecutionResult, pending_result,
  pending_actions, empty_summary, mark_skipped, set_result, refresh_summary, count_results,
  mark_remaining_cancelled, cancel_results,
}

abbrev done : ActionId → ActionExecutionResult
done id = record (pending_result id) { status = succeeded; attempts = 1 }

-- `a` has run and `b` was skipped.
abbrev stopped : ExecutionReport
stopped = record {
  plan_id = text "plan";
  actions =
      (text "a", done (text "a"))
      ∷ (
        text "b",
        record (pending_result (text "b")) {
          status = skipped_dependency_failed;
          finished_at = some 5;
        },
      )
      ∷ (text "c", pending_result (text "c"))
      ∷ [];
  summary = empty_summary 3;
}

abbrev completed : List ActionId
completed = text "a" ∷ text "b" ∷ []

stopped_test :
    mark_skipped 5
      (set_result
        (record {
          plan_id = text "plan";
          actions = pending_actions (text "a" ∷ text "b" ∷ text "c" ∷ []);
          summary = empty_summary 3;
        })
        (text "a")
        (done (text "a")))
      (text "b")
    ≡ stopped
unfolding mark_skipped set_result pending_actions get insert
stopped_test = refl

summary_test :
    (refresh_summary (mark_remaining_cancelled 9 stopped completed)).summary
    ≡ record { total_actions = 3; succeeded = 1; failed = 0; skipped = 1; cancelled = 1 }
unfolding refresh_summary mark_remaining_cancelled count_results cancel_results contains
summary_test = refl
