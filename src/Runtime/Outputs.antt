-- ===== src/Runtime/Outputs.antt =====
-- crates/susun-runtime/src/runtime.rs: the references that actions use (`RuntimeOutputs`).
use susun.Prelude.{Option, none, some, List, [], ◌∷◌, Text, list_eq, nat_eq}
use susun.IndexMap.{IndexMap, insert, values}
use susun.Engine.{ObservedContainer, ObservedNetwork, ObservedVolume, EngineSnapshot}
use susun.Plan.{PlanAction, create_container, create_network, create_volume}
use susun.Runtime.{succeeded, ActionOutput, container, network, volume, ActionExecutionResult}

-- A reference is the id that it wraps.
pub record RuntimeOutputs : Type 0 where
  pub containers : IndexMap Text Text
  pub networks : IndexMap Text Text
  pub volumes : IndexMap Text Text

abbrev pub empty_outputs : RuntimeOutputs
empty_outputs = record { containers = []; networks = []; volumes = [] }

unfoldable pub container_refs : List ObservedContainer → IndexMap Text Text → IndexMap Text Text
container_refs [] refs = refs
container_refs (c ∷ containers) refs = elim c.service_identity [
  | none ↦ container_refs containers refs
  | some id ↦ container_refs containers (insert id.service c.id refs)
]

unfoldable pub network_refs : List ObservedNetwork → IndexMap Text Text → IndexMap Text Text
network_refs [] refs = refs
network_refs (n ∷ networks) refs = elim n.network_identity [
  | none ↦ network_refs networks refs
  | some id ↦ network_refs networks (insert id.network n.id refs)
]

unfoldable pub volume_refs : List ObservedVolume → IndexMap Text Text → IndexMap Text Text
volume_refs [] refs = refs
volume_refs (v ∷ volumes) refs = elim v.volume_identity [
  | none ↦ volume_refs volumes refs
  | some id ↦ volume_refs volumes (insert id.volume v.id refs)
]

-- `RuntimeOutputs::from_snapshot`
unfoldable pub outputs_of_snapshot : EngineSnapshot → RuntimeOutputs
unfolding container_refs network_refs volume_refs values
outputs_of_snapshot snapshot = record {
  containers = container_refs (values snapshot.containers) [];
  networks = network_refs (values snapshot.networks) [];
  volumes = volume_refs (values snapshot.volumes) [];
}

-- The `match` of `update_outputs`, for an action that succeeded.
abbrev pub store_output : PlanAction → Option ActionOutput → RuntimeOutputs → RuntimeOutputs
store_output (create_container action) (some (container id)) o = record o {
  containers = insert action.identity.service id o.containers;
}
store_output (create_network identity name) (some (network id)) o = record o {
  networks = insert identity.network id o.networks;
}
store_output (create_volume identity name) (some (volume id)) o = record o {
  volumes = insert identity.volume id o.volumes;
}
store_output _ _ o = o

unfoldable pub update_outputs : PlanAction → ActionExecutionResult → RuntimeOutputs → RuntimeOutputs
unfolding insert
update_outputs action result o = elim result.status [
  | succeeded ↦ store_output action result.output o
  | _ ↦ o
]
