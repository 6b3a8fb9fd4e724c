-- ===== src/Plan/Execution.antt =====
-- crates/susun-planner/src/plan: the execution plan (action.rs) and its schema version (schema.rs).
use susun.Prelude.{ℕ, Option, Text, text}
use susun.IndexMap.{IndexMap}
use susun.Diagnostics.Report.{DiagnosticReport}
use susun.Engine.{ProjectIdentity}
use susun.Plan.{ActionId, PlanActionNode, PlannedOperation, up, down, PlanSummary}

pub record PlanSchemaVersion : Type 0 where
  pub major : ℕ
  pub minor : ℕ

-- `PlanSchemaVersion::CURRENT`
abbrev pub current_schema : PlanSchemaVersion
current_schema = record { major = 1; minor = 0 }

-- `PlanId` wraps a `String`; the time of creation is a number of seconds.
abbrev pub PlanId : Type 0
PlanId = Text

pub record ExecutionPlan : Type 0 where
  pub schema_version : PlanSchemaVersion
  pub plan_id : PlanId
  pub project : ProjectIdentity
  pub operation : PlannedOperation
  pub created_at : Option ℕ
  pub actions : IndexMap ActionId PlanActionNode
  pub summary : PlanSummary
  pub diagnostics : DiagnosticReport

-- `PlannedOperation::as_str`
abbrev pub operation_name : PlannedOperation → Text
operation_name up = text "up"
operation_name down = text "down"
