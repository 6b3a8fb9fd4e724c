-- ===== src/Plan/Owned.antt =====
-- crates/susun-planner/src/ownership.rs: the observed resources that the project owns.
pub mod Listed
use susun.Prelude.{
  none, some, List, [], ◌∷◌, ◌++◌, Text, text, list_eq, nat_eq, option_eq, ◌=?◌, if◌then◌else◌, ltb,
  length,
}
use susun.IndexMap.{IndexMap, get, insert, insert_set, values}
use susun.Diagnostics.{error, new_diagnostic}
use susun.Diagnostics.Report
use susun.Diagnostics.Report.{DiagnosticReport}
use susun.Engine.{ProjectInstanceId, ObservedContainer, ObservedNetwork, ObservedVolume}
use susun.Model.{ServiceName}
use susun.Plan.Input.{PlanningInput}

pub record OwnedResourceIndex : Type 0 where
  pub containers_by_service : IndexMap ServiceName (List Text)
  pub networks : List Text
  pub volumes : List Text

-- `map.entry(service).or_default()`
abbrev pub ids_of : IndexMap ServiceName (List Text) → ServiceName → List Text
ids_of index service = elim (get index service) [ none ↦ [] | some ids ↦ ids ]

-- The body of the loop over the containers.
unfoldable pub index_container :
    ProjectInstanceId
    → ObservedContainer
    → IndexMap ServiceName (List Text)
    → IndexMap ServiceName (List Text)
unfolding get insert
index_container project container index =
    if container.project_identity =? some project
    then elim container.service_identity [
      | none ↦ index
      | some id ↦
          if id.project =? project
          then insert id.service (ids_of index id.service ++ container.id ∷ []) index
          else index
    ]
    else index

unfoldable pub index_containers :
    ProjectInstanceId
    → List ObservedContainer
    → IndexMap ServiceName (List Text)
    → IndexMap ServiceName (List Text)
unfolding index_container
index_containers project [] index = index
index_containers project (c ∷ containers) index =
    index_containers project containers (index_container project c index)

-- The loop that reports services with several containers.
unfoldable pub report_duplicates :
    IndexMap ServiceName (List Text) → DiagnosticReport → DiagnosticReport
unfolding Report.push
report_duplicates [] report = report
report_duplicates ((service, containers) ∷ index) report = report_duplicates index (
    if ltb 1 (length containers)
    then Report.push report (
        new_diagnostic (text "SUS-PLAN-010") error
          (text "multiple observed containers claim service '" ++ (service ++ text "'")))
    else report)

-- `collect_project_resources`
unfoldable pub owned_networks : ProjectInstanceId → List ObservedNetwork → List Text → List Text
unfolding insert_set
owned_networks project [] ids = ids
owned_networks project (n ∷ networks) ids =
    owned_networks project networks
      (if n.project_identity =? some project then insert_set n.id ids else ids)

unfoldable pub owned_volumes : ProjectInstanceId → List ObservedVolume → List Text → List Text
unfolding insert_set
owned_volumes project [] ids = ids
owned_volumes project (v ∷ volumes) ids =
    owned_volumes project volumes
      (if v.project_identity =? some project then insert_set v.id ids else ids)

-- `index_owned_resources`, with the report that it fills.
unfoldable pub index_owned_resources :
    PlanningInput → DiagnosticReport → OwnedResourceIndex × DiagnosticReport
unfolding index_containers report_duplicates owned_networks owned_volumes values
index_owned_resources input report =
    let project = input.identity.working_set in
    let containers = index_containers project (values input.snapshot.containers) [] in
    (
      record {
        containers_by_service = containers;
        networks = owned_networks project (values input.snapshot.networks) [];
        volumes = owned_volumes project (values input.snapshot.volumes) [];
      },
      report_duplicates containers report,
    )
