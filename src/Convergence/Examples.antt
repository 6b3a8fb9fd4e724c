-- ===== src/Convergence/Examples.antt =====
-- A snapshot with one container of a desired service and two claims of another, and the theorems there.
use susun.Prelude.{
  ◌≡◌, ◌↔◌, refl, false, some, none, List, [], ◌∷◌, Text, text, list_eq, nat_eq, if◌then◌else◌,
}
use susun.IndexMap.{contains, IsDistinct, get, insert, shift_remove, keys, values}
use susun.Model.{ServiceName}
use susun.Engine.{
  ServiceInstanceId, instance_eq, new_instance, ObservedContainer, running, reference, complete,
  EngineSnapshot,
}
use susun.Convergence.{missing, unchanged, ownership_ambiguous}
use susun.Convergence.Ownership.{from_snapshot_with_names, index_claim}
use susun.Convergence.Ownership.Claims.{claimants, sole, is_several}
use susun.Convergence.Ownership.Owners.{
  from_snapshot_with_names-containers, from_snapshot_with_names-any_conflict,
}
use susun.Convergence.Deployment.{DesiredDeployment, new_observed}
use susun.Convergence.Diff.{
  DesiredInstanceFingerprints, is_unknown_image, classify_container, any_conflict,
  classify_instance, classify_deployment_differences,
}
use susun.Convergence.Diff.Correct.{
  classify_container-unchanged_iff, classify_instance-new_observed, wants,
  get-classify_deployment_differences,
}

abbrev web : ServiceInstanceId
web = new_instance (text "p") (text "web") 0

abbrev db : ServiceInstanceId
db = new_instance (text "p") (text "db") 0

abbrev container : Text → ServiceInstanceId → ObservedContainer
container name id = record {
  id = name;
  name = name;
  state = running;
  health = none;
  image = reference (text "image");
  labels = [];
  project_identity = some id.project;
  service_identity = some id;
  configuration_fingerprint = some (text "fp");
  completeness = complete;
}

abbrev snapshot : EngineSnapshot
snapshot = record {
  observed_at = 0;
  containers =
      (text "1", container (text "1") web)
      ∷ (text "2", container (text "2") db)
      ∷ (text "3", container (text "3") db)
      ∷ [];
  networks = [];
  volumes = [];
  images = [];
}

abbrev services : List ServiceName
services = text "web" ∷ text "db" ∷ []

abbrev fingerprints : DesiredInstanceFingerprints
fingerprints = (web, text "fp") ∷ (db, text "fp") ∷ []

abbrev desired : DesiredDeployment
desired = record {
  project = record {
    name = text "p";
    services = [];
    networks = [];
    volumes = [];
    configs = [];
    secrets = [];
  };
  selection = record { active_services = services };
  graph = record { order = services; edges = [] };
  identity = record { name = text "p"; working_set = text "p" };
  replicas = (text "web", 2) ∷ (text "db", 1) ∷ [];
}

classify_deployment_differences_test :
    classify_deployment_differences desired (new_observed snapshot services) fingerprints
    ≡ (web, unchanged)
      ∷ (new_instance (text "p") (text "web") 1, missing)
      ∷ (db, ownership_ambiguous)
      ∷ []
unfolding classify_deployment_differences classify_instance classify_container any_conflict
    new_observed from_snapshot_with_names index_claim get insert shift_remove keys values contains
classify_deployment_differences_test = refl

desired-IsDistinct : IsDistinct (keys desired.replicas)
unfolding keys contains
desired-IsDistinct = (refl, (refl, tt))

from_snapshot_with_names-containers_example :
    get (from_snapshot_with_names snapshot services []).containers db
    ≡ sole (claimants services db (values snapshot.containers))
from_snapshot_with_names-containers_example =
    from_snapshot_with_names-containers snapshot services [] db

from_snapshot_with_names-any_conflict_example :
    any_conflict db (from_snapshot_with_names snapshot services []).duplicate_claims
    ≡ is_several (claimants services db (values snapshot.containers))
from_snapshot_with_names-any_conflict_example =
    from_snapshot_with_names-any_conflict snapshot services [] db

classify_container-unchanged_iff_example :
    (classify_container (container (text "1") web) (some (text "fp")) ≡ unchanged) ↔ (
      ((container (text "1") web).state ≡ running)
      × (is_unknown_image (container (text "1") web).image ≡ false)
      × ((f : Text) × (some (text "fp") ≡ some f)
          × ((container (text "1") web).configuration_fingerprint ≡ some f)))
classify_container-unchanged_iff_example =
    classify_container-unchanged_iff (container (text "1") web) (some (text "fp"))

classify_instance-new_observed_example :
    classify_instance web (new_observed snapshot services) fingerprints
    ≡ (elim (claimants services web (values snapshot.containers)) [
      | [] ↦ missing
      | c ∷ [] ↦ classify_container c (get fingerprints web)
      | c ∷ d ∷ more ↦ ownership_ambiguous
    ])
classify_instance-new_observed_example =
    classify_instance-new_observed snapshot services web fingerprints

get-classify_deployment_differences_example :
    get (classify_deployment_differences desired (new_observed snapshot services) fingerprints) web
    ≡ (if wants desired.identity.working_set desired.replicas web
        then some (classify_instance web (new_observed snapshot services) fingerprints)
        else none)
get-classify_deployment_differences_example =
    get-classify_deployment_differences desired (new_observed snapshot services) fingerprints web
      desired-IsDistinct
