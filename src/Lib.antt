-- ===== src/Lib.antt =====
-- susun reads Compose files, plans the resources that they describe, and applies the plans to a
-- container engine. This library models parts of the Rust workspace that decide, as pure functions.
-- Input and output (the engine clients, the file system, the command line) are not modelled.
--
-- The parts, in the order of the data:
--   Source, Diagnostics     crates/susun-source, crates/susun-diagnostics: spans (Span::new is
--                           `new_span`), and the report that every phase fills
--                           (DiagnosticReport::push is `Report.push`, has_errors is `has_errors`).
--   Environment             crates/susun-loader/src/environment/resolve.rs: EnvResolver::get is
--                           `resolve`. A provider of process variables is any function.
--   Interpolation           crates/susun-loader/src/interpolation: `parse` of parser.rs is
--                           `Tokens.parse`, with the loop's states as the mutual functions `scan`,
--                           `after_dollar` and `scan_braced`; `interpolate` of eval.rs is
--                           `Eval.interpolate`. Texts are lists of code points: the source cuts its
--                           strings at ASCII characters only, where both views agree.
--   Model                   crates/susun-model: the structs and enums of a canonical project.
--   Selection               crates/susun-normalize/src/selection.rs: select_services.
--   Graph                   crates/susun-graph/src/lib.rs: build_graph, from a project and the selected
--                           services to a start order, or a diagnostic for a cycle.
--   Kahn                    the `while` loop that build_graph and topological_action_order share
--                           (crates/susun-planner/src/dag.rs), on any type of keys: `drain` is the loop,
--                           `release` its inner `for`.
--   Engine                  crates/susun-engine: identities and the snapshot of observed resources, the
--                           endpoints and the requests of src/operation.rs, the errors of src/error.rs
--                           with their redaction, and src/capability.rs.
--   Bollard                 crates/susun-engine-bollard/src/lib.rs: the labels of a new container, and how a
--                           snapshot reads them.
--   Plan                    crates/susun-planner: the actions of a plan; Plan.Dag is src/dag.rs,
--                           with errors as values (`PlanResult`). Plan.Id is src/id.rs, Plan.Naming
--                           src/naming.rs, Plan.Preflight src/capability_check.rs, Plan.Owned
--                           src/ownership.rs, Plan.Input src/input.rs and src/options.rs. Plan.Up is
--                           src/up and Plan.Down is src/down: a loop of the source is a recursive
--                           function on the state that the loop fills, its body a function of its own.
--   Convergence             crates/susun-convergence: Ownership is src/ownership.rs, Deployment is
--                           src/deployment.rs, Diff is src/diff.rs; the parent has the types of
--                           src/decision.rs and src/policy.rs.
--   Ports                   crates/susun-normalize/src/port.rs: the short and the long form of a port
--                           mapping, with errors as values (`PortResult`).
--   Runtime                 crates/susun-runtime: the report of a run (src/report.rs) and the helpers of
--                           src/runtime.rs that write into it: `set_result`, `mark_skipped`,
--                           `mark_remaining_cancelled`. The time is an argument.
--                           Runtime.Scheduler is the loop of apply_cancellable_inner as a step
--                           relation (`Step`): a round of the inner loop (`launch`), the end of a
--                           future (`finish`), and the cancellation of the token. The engine decides
--                           which future ends and with which result, so a step takes any of them.
--                           Graph is RuntimeGraph, Outputs is RuntimeOutputs.
--                           Runtime.Actions is execute_action_inner, with the wait for a dependency,
--                           the retries of a pull and the labels of a container. The engine is a record
--                           of functions on a world, which holds the clock.
--   IndexMap, Prelude       the maps and sets of the crate `indexmap` as association lists in the order
--                           of insertion, and shared helpers.
--
-- A struct is a record, an enum a data type, an `IndexMap` or `IndexSet` a list whose keys stand in the
-- order of insertion; a theorem that needs their distinctness names it (`IsDistinct`). Counters of type
-- `usize` and `u64` are natural numbers, since they count entries in memory.
--
-- Fuel: `drain` runs on one unit of fuel for each node and returns `none` without fuel. A node enters
-- the queue at most once, when its last open dependency is taken, so that the loop has at most one
-- round for each node.
-- `wait_loop` runs on one unit for each poll, and `retry_loop` on one for each attempt that the policy
-- allows; the theorem on them says how many polls are enough.
--
-- Not modelled: the YAML parser and its adapter, the HTTP client of the engine, builders
-- (crates/susun-build), the command line, and rendering. The merge of services, validation and the
-- watcher are not covered.
mod Prelude
pub mod IndexMap
pub mod Source
pub mod Diagnostics
pub mod Environment
pub mod Interpolation
pub mod Model
pub mod Kahn
pub mod Engine
pub mod Plan
pub mod Selection
pub mod Graph
pub mod Convergence
pub mod Ports
pub mod Runtime
pub mod Bollard
