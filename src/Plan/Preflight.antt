-- ===== src/Plan/Preflight.antt =====
-- crates/susun-planner/src/capability_check.rs: what an engine has to support for a plan of `up`.
use susun.Prelude.{
  Bool, true, false, not, ◌&&◌, Option, none, some, List, [], ◌∷◌, ◌++◌, Text, text, list_eq,
  nat_eq, if◌then◌else◌,
}
use susun.IndexMap.{IndexMap, contains, get}
use susun.Diagnostics.{Diagnostic, error, new_diagnostic}
use susun.Diagnostics.Report
use susun.Diagnostics.Report.{DiagnosticReport}
use susun.Engine.Capabilities.{
  SupportLevel, supported, is_supported, MountType, volume, bind, anonymous, EngineCapabilities,
  supports_mount,
}
use susun.Model.{
  ServiceName, Service, CanonicalVolume, VolumeKind, ResourceDefinition, ResourceMount,
  NetworkAttachment, ServiceDependency, DependencyCondition, service_healthy,
}
use susun.Plan.Input.{PlanningInput, UpPlanOptions, DependencyWaitPolicy, degrade_to_start_order}

-- `mount_type_for`
abbrev pub mount_type_for : VolumeKind → MountType
mount_type_for VolumeKind.volume = volume
mount_type_for VolumeKind.bind = bind
mount_type_for VolumeKind.anonymous = anonymous

-- The derived `Debug` of `MountType`.
abbrev pub debug_mount : MountType → Text
debug_mount volume = text "Volume"
debug_mount bind = text "Bind"
debug_mount anonymous = text "Anonymous"

abbrev pub problem : (code : Text) (service : ServiceName) (rest : Text) → Diagnostic
problem code service rest = new_diagnostic code error (text "service '" ++ (service ++ rest))

abbrev pub is_absent {ℓ} : {A : Type ℓ} → Option A → Bool
is_absent none = true
is_absent (some _) = false

unfoldable pub check_volumes :
    EngineCapabilities → ServiceName → List CanonicalVolume → DiagnosticReport → DiagnosticReport
unfolding contains Report.push
check_volumes capabilities name [] report = report
check_volumes capabilities name (v ∷ volumes) report =
    let mount_type = mount_type_for v.kind in
    check_volumes capabilities name volumes (
      if supports_mount capabilities mount_type
      then report
      else Report.push report (
          problem (text "SUS-CAP-001") name
            (text "' requires unsupported " ++ (debug_mount mount_type ++ text " mount"))))

-- `definition.file.is_some() && !definition.external`
abbrev pub can_materialize : Option ResourceDefinition → Bool
can_materialize none = false
can_materialize (some definition) = not (is_absent definition.file) && not definition.external

-- The loops over the configs and over the secrets, which differ in the word `kind`.
unfoldable pub check_mounts :
    (kind : Text)
    → IndexMap Text ResourceDefinition
    → ServiceName
    → List (ResourceMount Text)
    → DiagnosticReport
    → DiagnosticReport
unfolding get Report.push
check_mounts kind definitions name [] report = report
check_mounts kind definitions name (m ∷ mounts) report = check_mounts kind definitions name mounts (
    if can_materialize (get definitions m.source)
    then report
    else Report.push report (
        problem (text "SUS-CAP-005") name (
          text "' references "
          ++ (kind
              ++ (text " '"
                  ++ (m.source
                      ++ text "' that cannot be materialized by the local runtime subset"))))))

abbrev pub has_aliases : NetworkAttachment → Bool
has_aliases attachment = elim attachment.aliases [ [] ↦ false | a ∷ aliases ↦ true ]

unfoldable pub check_networks :
    EngineCapabilities
    → ServiceName
    → IndexMap Text NetworkAttachment
    → DiagnosticReport
    → DiagnosticReport
unfolding Report.push
check_networks capabilities name [] report = report
check_networks capabilities name ((network, attachment) ∷ networks) report =
    check_networks capabilities name networks (
      if has_aliases attachment && not (is_supported capabilities.supports_network_aliases)
      then Report.push report (
          problem (text "SUS-CAP-003") name (
            text "' uses aliases on network '"
            ++ (network ++ text "' but aliases are not supported")))
      else report)

abbrev pub waits_for_health : DependencyCondition → Bool
waits_for_health service_healthy = true
waits_for_health _ = false

abbrev pub degrades : DependencyWaitPolicy → Bool
degrades degrade_to_start_order = true
degrades _ = false

-- `== SupportLevel::Supported`
abbrev pub is_full : SupportLevel → Bool
is_full supported = true
is_full _ = false

unfoldable pub check_depends_on :
    EngineCapabilities
    → UpPlanOptions
    → ServiceName
    → IndexMap ServiceName ServiceDependency
    → DiagnosticReport
    → DiagnosticReport
unfolding Report.push
check_depends_on capabilities options name [] report = report
check_depends_on capabilities options name ((dependency, d) ∷ dependencies) report =
    check_depends_on capabilities options name dependencies (
      if waits_for_health d.condition
        && (not (degrades options.dependency_wait_policy)
            && not (is_full capabilities.supports_health))
      then Report.push report (
          problem (text "SUS-CAP-002") name (
            text "' waits for '"
            ++ (dependency ++ text "' to become healthy but health waits are not supported")))
      else report)

-- The checks of one service, in the order of the source.
unfoldable pub check_service :
    PlanningInput → UpPlanOptions → ServiceName → Service → DiagnosticReport → DiagnosticReport
unfolding check_volumes check_mounts check_networks check_depends_on Report.push
check_service input options name service report =
    let images =
      if is_absent service.image
      then Report.push report (
          problem (text "SUS-CAP-004") name
            (text "' has no prebuilt image available for Phase 2 planning"))
      else report in
    let volumes = check_volumes input.capabilities name service.volumes images in
    let configs = check_mounts (text "config") input.project.configs name service.configs volumes in
    let secrets = check_mounts (text "secret") input.project.secrets name service.secrets configs in
    let networks = check_networks input.capabilities name service.networks secrets in
    let health =
      if not (is_absent service.healthcheck)
        && not (is_supported input.capabilities.supports_health)
      then Report.push networks (
          problem (text "SUS-CAP-002") name
            (text "' defines a healthcheck but health is not supported"))
      else networks in
    check_depends_on input.capabilities options name service.depends_on health

unfoldable pub check_services :
    PlanningInput → UpPlanOptions → List ServiceName → DiagnosticReport → DiagnosticReport
unfolding check_service get
check_services input options [] report = report
check_services input options (name ∷ names) report = elim (get input.project.services name) [
  | none ↦ check_services input options names report
  | some service ↦
      check_services input options names (check_service input options name service report)
]

-- `check_up_capabilities`
unfoldable pub check_up_capabilities : PlanningInput → UpPlanOptions → DiagnosticReport
unfolding check_services
check_up_capabilities input options =
    check_services input options input.selection.active_services Report.new
