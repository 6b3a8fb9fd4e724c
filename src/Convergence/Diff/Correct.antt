-- ===== src/Convergence/Diff/Correct.antt =====
-- crates/susun-convergence/src/diff.rs: the differences in terms of the containers that claim an
-- instance.
use susun.Prelude.{
  ℕ, zero, suc, ◌+◌, ◌≡◌, ◌↔◌, refl, ◌∙◌, ap, Bool, true, false, ◌&&◌, ◌||◌, Option, none, some,
  List, [], ◌∷◌, Text, arith, list_eq, nat_eq, list_beq_iff, ◌==◌, ◌=?◌, ltb, leb, if◌then◌else◌,
  Bool-cases, Option-cases, inl, inr,
}
use susun.IndexMap.{
  IndexMap, contains, IsDistinct, get, insert, keys, values, get-insert, get-none_iff,
}
use susun.Model.{ServiceName}
use susun.Engine.{
  ProjectInstanceId, ServiceInstanceId, new_instance, instance_eq, instance_beq_iff,
  ObservedContainer, running, EngineSnapshot,
}
use susun.Convergence.{InstanceDifference, missing, unchanged, ownership_ambiguous}
use susun.Convergence.Ownership.{from_snapshot}
use susun.Convergence.Ownership.Claims.{claimants}
use susun.Convergence.Ownership.Owners.{
  from_snapshot_with_names-containers, from_snapshot_with_names-any_conflict,
}
use susun.Convergence.Deployment.{DesiredDeployment, ObservedDeployment, new_observed}
use susun.Convergence.Diff.{
  DesiredInstanceFingerprints, is_unknown_image, classify_container, classify_instance,
  classify_replicas, classify_services, classify_deployment_differences,
}

-- An observed container is unchanged exactly if it runs, its image is known, and it bears the desired
-- fingerprint.
pub classify_container-unchanged_iff :
    (c : ObservedContainer) (desired : Option Text)
    → (classify_container c desired ≡ unchanged) ↔ (
        (c.state ≡ running)
        × (is_unknown_image c.image ≡ false)
        × ((f : Text) × (desired ≡ some f) × (c.configuration_fingerprint ≡ some f)))
unfolding classify_container
classify_container-unchanged_iff c desired = elim (Bool-cases (is_unknown_image c.image)) [
  | inl u ↦ ground (arith, u)
  | inr known ↦ elim (Option-cases desired) [
    | inl d ↦ ground (arith, d)
    | inr (f, d) ↦ elim (Option-cases c.configuration_fingerprint) [
      | inl o ↦ ground (arith, known, d, o)
      | inr (g, o) ↦ (
        λ h. (
          ground (arith, known, d, o, h),
          known,
          (f, d, o ∙ ap some ((list_beq_iff g f).0 (ground (arith, known, d, o, h)))),
        ),
        λ (state, image, (x, want, have)).
            ground (arith, state, image, want, have, list_beq_iff x x),
      )
    ]
  ]
]

-- Against a fresh snapshot, an instance of a service is missing if no container claims it, ambiguous
-- if several do, and else classified by the one container that claims it.
pub classify_instance-new_observed :
    (snapshot : EngineSnapshot) (services : List ServiceName) (id : ServiceInstanceId)
    (fingerprints : DesiredInstanceFingerprints)
    → classify_instance id (new_observed snapshot services) fingerprints
      ≡ (elim (claimants services id (values snapshot.containers)) [
        | [] ↦ missing
        | c ∷ [] ↦ classify_container c (get fingerprints id)
        | c ∷ d ∷ more ↦ ownership_ambiguous
      ])
unfolding classify_instance new_observed from_snapshot
classify_instance-new_observed snapshot services id fingerprints = ground (
  arith,
  from_snapshot_with_names-containers snapshot services [] id,
  from_snapshot_with_names-any_conflict snapshot services [] id,
)

between :
    (a b : Bool) (start count r : ℕ)
    → (a && (b && (leb start r && ltb r (start + suc count)))) ≡ (
        (a && (b && (start == r)))
        || (a && (b && (leb (suc start) r && ltb r (suc start + count)))))
between true true start count r = ground arith
between true false start count r = refl
between false b start count r = refl

-- The instance belongs to the project and its replica number is below the count of its service.
unfoldable pub wants : ProjectInstanceId → IndexMap ServiceName ℕ → ServiceInstanceId → Bool
unfolding get
wants project replicas id =
    (project =? id.project)
    && (elim (get replicas id.service) [ none ↦ false | some count ↦ ltb id.replica count ])

module _ (desired : DesiredDeployment) (observed : ObservedDeployment)
    (fingerprints : DesiredInstanceFingerprints) where
  -- The instance lies among the replicas from `start` to `start + count`.
  abbrev within : ServiceName → (start count : ℕ) → ServiceInstanceId → Bool
  within service start count id =
      (desired.identity.working_set =? id.project)
      && ((service =? id.service) && (leb start id.replica && ltb id.replica (start + count)))

  within-suc :
      (service : ServiceName) (start count : ℕ) (id : ServiceInstanceId)
      → within service start (suc count) id ≡ (
          new_instance desired.identity.working_set service start =? id
          || within service (suc start) count id)
  within-suc service start count id =
      between (desired.identity.working_set =? id.project) (service =? id.service) start count
        id.replica

  get-classify_replicas :
      (service : ServiceName) (start count : ℕ)
      (differences : IndexMap ServiceInstanceId InstanceDifference) (id : ServiceInstanceId)
      → get (classify_replicas desired observed fingerprints service start count differences) id ≡ (
          if within service start count id
          then some (classify_instance id observed fingerprints)
          else get differences id)
  unfolding classify_replicas
  get-classify_replicas service start zero differences id = ground arith
  get-classify_replicas service start (suc count) differences id =
      let k = new_instance desired.identity.working_set service start in
      let diff = classify_instance k observed fingerprints in
      elim (Bool-cases (k =? id)) [
        | inl same ↦ ground (
          arith,
          get-classify_replicas service (suc start) count (insert k diff differences) id,
          get-insert differences k id diff,
          (instance_beq_iff k id).0 same,
          within-suc service start count id,
        )
        | inr other ↦ ground (
          arith,
          get-classify_replicas service (suc start) count (insert k diff differences) id,
          get-insert differences k id diff,
          other,
          within-suc service start count id,
        )
      ]

  -- The instances of a service that are desired.
  get-classify_services :
      (services : IndexMap ServiceName ℕ)
      (differences : IndexMap ServiceInstanceId InstanceDifference) (id : ServiceInstanceId)
      → IsDistinct (keys services)
      → get (classify_services desired observed fingerprints services differences) id ≡ (
          if wants desired.identity.working_set services id
          then some (classify_instance id observed fingerprints)
          else get differences id)
  unfolding classify_services get keys contains wants
  get-classify_services [] differences id h = ground arith
  get-classify_services ((service, count) ∷ services) differences id h = ground (
    arith,
    get-classify_services services
        (classify_replicas desired observed fingerprints service 0 count differences) id h.1,
    get-classify_replicas service 0 count differences id,
    list_beq_iff service id.service,
    get-none_iff services service,
  )

  -- For a deployment that lists no service twice (`IndexMap`), the differences hold the difference of
  -- every replica that is desired, numbered from 0 up to the count of its service, and nothing else.
  pub get-classify_deployment_differences :
      (id : ServiceInstanceId)
      → IsDistinct (keys desired.replicas)
      → get (classify_deployment_differences desired observed fingerprints) id ≡ (
          if wants desired.identity.working_set desired.replicas id
          then some (classify_instance id observed fingerprints)
          else none)
  unfolding classify_deployment_differences get
  get-classify_deployment_differences id h = get-classify_services desired.replicas [] id h
