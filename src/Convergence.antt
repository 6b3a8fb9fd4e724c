-- ===== src/Convergence.antt =====
-- crates/susun-convergence: differences between desired and observed state and the decisions about
-- them (src/decision.rs, src/policy.rs).
pub mod Ownership
pub mod Deployment
pub mod Diff
mod Examples
use susun.Prelude.{Bool, true, false, not, ◌||◌, List, [], ◌∷◌, ◌++◌, Text}
use susun.Engine.{ServiceInstanceId}

pub data RuntimeDrift : Type 0 where
  needs_restart paused restarting : RuntimeDrift

abbrev pub ChangedField : Type 0
ChangedField = Text

pub data InstanceDifference : Type 0 where
  missing unchanged stopped_but_compatible image_changed : InstanceDifference
  configuration_changed : (fields : List ChangedField) → InstanceDifference
  runtime_state_drift : RuntimeDrift → InstanceDifference
  ownership_ambiguous unsupported_observed_state : InstanceDifference

pub data ConvergenceDecisionKind : Type 0 where
  no_op create start restart recreate stop remove block : ConvergenceDecisionKind

pub record DecisionReason : Type 0 where
  pub code : Text
  pub summary : Text

pub record ConvergenceDecision : Type 0 where
  pub instance_id : ServiceInstanceId
  pub difference : InstanceDifference
  pub kind : ConvergenceDecisionKind
  pub reasons : List DecisionReason
  pub mutates : Bool
  pub downtime_expected : Bool
  pub destructive : Bool

-- The three `matches!` of `ConvergenceDecision::new`.
abbrev pub is_passive : ConvergenceDecisionKind → Bool
is_passive no_op = true
is_passive block = true
is_passive _ = false

abbrev pub is_destructive : ConvergenceDecisionKind → Bool
is_destructive remove = true
is_destructive recreate = true
is_destructive _ = false

abbrev pub has_downtime : ConvergenceDecisionKind → Bool
has_downtime restart = true
has_downtime recreate = true
has_downtime stop = true
has_downtime remove = true
has_downtime _ = false

-- `ConvergenceDecision::new`
unfoldable pub new_decision :
    ServiceInstanceId → InstanceDifference → ConvergenceDecisionKind → ConvergenceDecision
new_decision instance_id difference kind = record {
  instance_id = instance_id;
  difference = difference;
  kind = kind;
  reasons = [];
  mutates = not (is_passive kind);
  downtime_expected = has_downtime kind;
  destructive = is_destructive kind;
}

-- `ConvergenceDecision::with_reason`
unfoldable pub with_reason : ConvergenceDecision → DecisionReason → ConvergenceDecision
with_reason d reason = record d { reasons = d.reasons ++ reason ∷ [] }

-- src/converge.rs
unfoldable pub decision_kind : InstanceDifference → ConvergenceDecisionKind
decision_kind missing = create
decision_kind unchanged = no_op
decision_kind stopped_but_compatible = start
decision_kind image_changed = recreate
decision_kind (configuration_changed fields) = recreate
decision_kind (runtime_state_drift drift) = restart
decision_kind ownership_ambiguous = block
decision_kind unsupported_observed_state = block

-- src/policy.rs
pub data ImageChangePolicy : Type 0 where
  reference_only digest_when_available always_refresh_according_to_pull_policy : ImageChangePolicy

pub data DependencyRecreatePolicy : Type 0 where
  never restart_explicit_dependents recreate_when_dependency_contract_requires :
      DependencyRecreatePolicy

pub data AnonymousVolumePolicy : Type 0 where
  preserve_when_target_matches recreate reject_ambiguous : AnonymousVolumePolicy

pub record OrphanPolicy : Type 0 where
  pub report : Bool
  pub remove_containers : Bool
  pub remove_networks : Bool
  pub remove_volumes : Bool

pub data ReplacementStrategy : Type 0 where
  stop_remove_create_start create_then_switch restart_only : ReplacementStrategy

pub data RecreatePolicy : Type 0 where
  changed force never : RecreatePolicy

pub record ConvergencePolicy : Type 0 where
  pub image_change : ImageChangePolicy
  pub dependency_recreate : DependencyRecreatePolicy
  pub anonymous_volumes : AnonymousVolumePolicy
  pub orphans : OrphanPolicy
  pub replacement : ReplacementStrategy
  pub recreate : RecreatePolicy
  pub renew_anonymous_volumes : Bool

-- The derived `Default`.
abbrev pub default_policy : ConvergencePolicy
default_policy = record {
  image_change = reference_only;
  dependency_recreate = DependencyRecreatePolicy.never;
  anonymous_volumes = reject_ambiguous;
  orphans = record {
    report = true;
    remove_containers = false;
    remove_networks = false;
    remove_volumes = false;
  };
  replacement = stop_remove_create_start;
  recreate = RecreatePolicy.changed;
  renew_anonymous_volumes = false;
}
