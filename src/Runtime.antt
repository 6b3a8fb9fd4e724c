-- ===== src/Runtime.antt =====
-- crates/susun-runtime: what the application of a plan records (src/report.rs, and the helpers of
-- src/runtime.rs that write into the report).
pub mod Summary
pub mod Graph
pub mod Outputs
pub mod Labels
pub mod Actions
pub mod Scheduler
mod Examples
use susun.Prelude.{
  ℕ, suc, Bool, true, false, Option, none, some, List, [], ◌∷◌, Text, list_eq, nat_eq,
  if◌then◌else◌, length,
}
use susun.IndexMap.{IndexMap, contains, get, insert, keys}
use susun.Plan.{ActionId, PlanActionNode}

pub data ActionStatus : Type 0 where
  pending ready running succeeded failed skipped_dependency_failed cancelled : ActionStatus

-- The references that an engine returns wrap one identifier each.
pub data ActionOutput : Type 0 where
  image : (reference : Text) → ActionOutput
  container network volume : (id : Text) → ActionOutput
  no_output : ActionOutput

-- Times are seconds.
pub record ActionExecutionResult : Type 0 where
  pub action_id : ActionId
  pub status : ActionStatus
  pub started_at : Option ℕ
  pub finished_at : Option ℕ
  pub attempts : ℕ
  pub output : Option ActionOutput
  pub error : Option Text

-- `ActionExecutionResult::pending`
abbrev pub pending_result : ActionId → ActionExecutionResult
pending_result id = record {
  action_id = id;
  status = pending;
  started_at = none;
  finished_at = none;
  attempts = 0;
  output = none;
  error = none;
}

pub record ExecutionSummary : Type 0 where
  pub total_actions : ℕ
  pub succeeded : ℕ
  pub failed : ℕ
  pub skipped : ℕ
  pub cancelled : ℕ

pub record ExecutionReport : Type 0 where
  pub plan_id : Text
  pub actions : IndexMap ActionId ActionExecutionResult
  pub summary : ExecutionSummary

abbrev pub empty_summary : (total : ℕ) → ExecutionSummary
empty_summary total = record {
  total_actions = total;
  succeeded = 0;
  failed = 0;
  skipped = 0;
  cancelled = 0;
}

-- `plan.actions.keys().map(..).collect()`
unfoldable pub pending_actions : List ActionId → IndexMap ActionId ActionExecutionResult
pending_actions [] = []
pending_actions (id ∷ ids) = (id, pending_result id) ∷ pending_actions ids

-- `ExecutionReport::pending`, from the id and the actions of the plan.
unfoldable pub pending_report : Text → IndexMap ActionId PlanActionNode → ExecutionReport
unfolding pending_actions keys
pending_report plan_id actions = record {
  plan_id = plan_id;
  actions = pending_actions (keys actions);
  summary = empty_summary (length actions);
}

-- The `match` of `refresh_summary`.
abbrev pub count_status : ActionStatus → ExecutionSummary → ExecutionSummary
count_status succeeded s = record s { succeeded = suc s.succeeded }
count_status failed s = record s { failed = suc s.failed }
count_status skipped_dependency_failed s = record s { skipped = suc s.skipped }
count_status cancelled s = record s { cancelled = suc s.cancelled }
count_status pending s = s
count_status ready s = s
count_status running s = s

unfoldable pub count_results :
    IndexMap ActionId ActionExecutionResult → ExecutionSummary → ExecutionSummary
count_results [] s = s
count_results ((id, r) ∷ results) s = count_results results (count_status r.status s)

-- `ExecutionReport::refresh_summary`
unfoldable pub refresh_summary : ExecutionReport → ExecutionReport
unfolding count_results
refresh_summary report = record report {
  summary = count_results report.actions (empty_summary (length report.actions));
}

-- `set_result`
unfoldable pub set_result : ExecutionReport → ActionId → ActionExecutionResult → ExecutionReport
unfolding insert
set_result report id result = record report { actions = insert id result report.actions }

-- `mark_skipped`, at the time `now`.
unfoldable pub mark_skipped : (now : ℕ) → ExecutionReport → ActionId → ExecutionReport
unfolding get insert
mark_skipped now report id = elim (get report.actions id) [
  | none ↦ report
  | some result ↦ record report {
    actions =
        insert id (record result { status = skipped_dependency_failed; finished_at = some now })
          report.actions;
  }
]

-- `ActionStatus::Pending | ActionStatus::Ready`
abbrev pub is_waiting : ActionStatus → Bool
is_waiting pending = true
is_waiting ready = true
is_waiting _ = false

abbrev pub cancel_result :
    (now : ℕ) (completed : List ActionId) → ActionId → ActionExecutionResult → ActionExecutionResult
cancel_result now completed id r =
    if contains completed id
    then r
    else if is_waiting r.status
    then record r { status = cancelled; finished_at = some now }
    else r

unfoldable pub cancel_results :
    (now : ℕ) (completed : List ActionId)
    → IndexMap ActionId ActionExecutionResult
    → IndexMap ActionId ActionExecutionResult
unfolding contains
cancel_results now completed [] = []
cancel_results now completed ((id, r) ∷ results) =
    (id, cancel_result now completed id r) ∷ cancel_results now completed results

-- `mark_remaining_cancelled`, at the time `now`.
unfoldable pub mark_remaining_cancelled :
    (now : ℕ) → ExecutionReport → (completed : List ActionId) → ExecutionReport
unfolding cancel_results
mark_remaining_cancelled now report completed = record report {
  actions = cancel_results now completed report.actions;
}
