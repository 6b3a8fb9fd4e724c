-- ===== src/Plan/Up.antt =====
-- crates/susun-planner/src/up/mod.rs: the plan that brings a project up.
pub mod Needs
pub mod Resources
pub mod Found
pub mod Grown
pub mod Mounts
pub mod Services
pub mod Waits
pub mod Serving
pub mod Served
pub mod Facts
pub mod Noted
pub mod Steps
pub mod Placed
pub mod Fetched
pub mod Provided
pub mod Required
pub mod Brought
pub mod Bringing
pub mod Correct
mod Examples
use susun.Prelude.{Option, some, [], if◌then◌else◌}
use susun.Diagnostics.Report
use susun.Plan.{up}
use susun.Plan.Dag.{PlanResult, ok, err}
use susun.Plan.Input.{PlanningInput, PlanOutcome, blocked, UpPlanOptions, validated}
use susun.Plan.Naming.{NamingPolicy}
use susun.Plan.Preflight.{check_up_capabilities}
use susun.Plan.Up.Resources.{ResourceState, no_resources, plan_prerequisite_resources}
use susun.Plan.Up.Services.{ServiceState, plan_services}

unfoldable pub after_services :
    PlanningInput → PlanResult ServiceState → Option (PlanResult PlanOutcome)
after_services input (err e) = some (err e)
after_services input (ok st) =
    if Report.has_errors st.diagnostics
    then some (ok (blocked st.diagnostics))
    else validated input up st.diagnostics (ok st.actions)

unfoldable pub after_resources :
    PlanningInput → NamingPolicy → PlanResult ResourceState → Option (PlanResult PlanOutcome)
after_resources input naming (err e) = some (err e)
after_resources input naming (ok st) =
    if Report.has_errors st.diagnostics
    then some (ok (blocked st.diagnostics))
    else after_services input (
        plan_services input naming st.planned input.graph.order
          (record { actions = st.actions; start_ids = []; diagnostics = st.diagnostics }))

unfoldable pub plan_up :
    PlanningInput → UpPlanOptions → NamingPolicy → Option (PlanResult PlanOutcome)
plan_up input options naming =
    let diagnostics = check_up_capabilities input options in
    if Report.has_errors diagnostics
    then some (ok (blocked diagnostics))
    else after_resources input naming (
        plan_prerequisite_resources input options naming
          (record { planned = no_resources; actions = []; diagnostics = Report.new }))
