-- ===== src/Application/EngineExamples.antt =====
-- The theorems of the engines of an application at concrete inputs.
use sj_cloud.Prelude.{
  ℕ, ◌+◌, ◌*◌, ◌≤◌, ◌<◌, String, Bool, true, false, List, [], ◌∷◌, none, some, ◌≡◌, ◌⊎◌, inl, refl,
  lookup, put, to_text, ◌==◌, length, population,
}
use sj_cloud.Application.Deployment.{
  DeploymentState, active, failed, is_active, no_metrics, transition_to, is_valid_transition, track,
}
use sj_cloud.Application.Metering.{IsMetered}
use sj_cloud.Application.Containers.{Containers, running, tick, is_crashed, get_state}
use sj_cloud.Application.Containers
use sj_cloud.Application.Containers.Supervised.{
  Call, starts, stops, ticks, call_all, IsSupervised, call_all-IsSupervised,
}
use sj_cloud.Application.Readiness.{Options, health_policy, verify_readiness, attempts}
use sj_cloud.Application.Readiness.Limit.{IsFirst, verify_readiness-cases}
use sj_cloud.Application.Releases.{
  Release, Request, new_release, create_release, record_release, find_release, get_latest_release,
  get_releases,
}
use sj_cloud.Application.Releases.Ledger.{find_release-create_release}
use sj_cloud.Application.Engine.{
  World, Config, get_application, ask, save_copy, save_application, saved,
}
use sj_cloud.Application.Deploying
use sj_cloud.Application.Deploying.{run_deployment}
use sj_cloud.Application.Deploying.Ending.{Leaves, run_deployment-Leaves}
use sj_cloud.Application.Deploying.Metering.{run_deployment-IsMetered}
use sj_cloud.Application.Reverting
use sj_cloud.Application.Reverting.{run_rollback}
use sj_cloud.Application.Reverting.Restored.{run_rollback-Leaves, run_rollback_miscounts}
use sj_cloud.Application.Reverting.Undone.{run_rollback-run_deployment}

abbrev options : Options
options = record { initial_delay = none; interval = none; threshold = none }

abbrev request : String → String → Request
request image strategy = record {
  app_id = "shop";
  tenant_id = "acme";
  image_digest = image;
  strategy = strategy;
  health = options;
  env_snapshot = [];
  secrets_snapshot = [];
}

abbrev first : Release
first = record {
  release_id = "rel-1";
  application_id = "shop";
  tenant_id = "acme";
  image_digest = "sha256:a";
  environment_snapshot = [];
  secrets_snapshot = [];
  deployment_strategy = "";
  health_policy = options;
  runtime_version = "1.0.0";
  timestamp = 1;
  checksum = "c";
}

abbrev second : Release
second = record first { release_id = "rel-2"; image_digest = "sha256:b" }

abbrev recreated : Release
recreated = record first { release_id = "rel-3"; deployment_strategy = "Recreate" }

abbrev no_containers : Containers
no_containers = record {
  states = [];
  monitored_apps = [];
  runtime_restart_total = 0;
  runtime_recovery_total = 0;
}

abbrev world_in : DeploymentState → ℕ → World
world_in status serving = record {
  platform = record {
    statuses = ("shop", some status) ∷ [];
    metrics = record no_metrics { application_active = serving };
    faults = [];
  };
  sources = ("shop", record { image = "sha256:a"; version = "1.0.0" }) ∷ [];
  ledgers = ("acme", ("shop", first ∷ second ∷ recreated ∷ []) ∷ []) ∷ [];
  containers = no_containers;
  checks = [];
  deployments = [];
  rollbacks = [];
}

abbrev config_in : DeploymentState → Config
config_in status = record {
  application_id = "shop";
  status = some status;
  source = record { image = "sha256:a"; version = "1.0.0" };
}

abbrev outside : Deploying.Outside
outside = record {
  files = none;
  has_directory = true;
  answers = λ i. false;
  saving = none;
  marking = none;
}

abbrev quiet : Reverting.Outside
quiet = record { files = none; answers = λ i. true; saving = none }

abbrev job : String → Deploying.Job
job id = record { app_id = "shop"; tenant_id = "acme"; release_id = id; now = 7 }

abbrev back : Reverting.Job
back = record { app_id = "shop"; tenant_id = "acme"; target_id = "rel-1" }

read_application :
    (s : DeploymentState) (n : ℕ) → get_application "shop" (world_in s n) ≡ some (config_in s)
unfolding get_application lookup
read_application s n = refl

found_first :
    (s : DeploymentState) (n : ℕ)
    → find_release "acme" "shop" "rel-1" (world_in s n).ledgers ≡ some first
unfolding find_release get_releases lookup
found_first s n = refl

found_second :
    (s : DeploymentState) (n : ℕ)
    → find_release "acme" "shop" "rel-2" (world_in s n).ledgers ≡ some second
unfolding find_release get_releases lookup
found_second s n = refl

run_deployment-Leaves_example :
    Leaves "shop"
      (run_deployment (job "rel-2") outside (world_in failed 0))
      true
      (record (config_in active) { source = record { image = "sha256:b"; version = "1.0.0" } })
run_deployment-Leaves_example =
    run_deployment-Leaves (job "rel-2") outside (world_in failed 0) (config_in failed) second
      (read_application failed 0) (found_second failed 0) refl refl refl

run_deployment-IsMetered_example :
    IsMetered (run_deployment (job "rel-3") outside (world_in active 1)).0.platform
run_deployment-IsMetered_example =
    run_deployment-IsMetered (job "rel-3") outside (world_in active 1) refl refl

run_rollback-Leaves_example :
    Leaves "shop" (run_rollback back quiet (world_in active 1)) true (config_in active)
run_rollback-Leaves_example =
    run_rollback-Leaves back quiet (world_in active 1) (config_in active) first
      (read_application active 1) (found_first active 1) refl refl refl refl

run_rollback_miscounts_example :
    ((run_rollback back quiet (world_in failed 0)).1 ≡ none)
    × (lookup "shop" (run_rollback back quiet (world_in failed 0)).0.platform.statuses
        ≡ some (some failed))
    × ((run_rollback back quiet (world_in failed 0)).0.platform.metrics.application_active
        ≡ population is_active (run_rollback back quiet (world_in failed 0)).0.platform.statuses
          + 1)
run_rollback_miscounts_example =
    run_rollback_miscounts back quiet (world_in failed 0) (config_in failed) first
      (read_application failed 0) (found_first failed 0) refl refl refl refl refl (inl refl)

abbrev deployed_world : World
deployed_world = (run_deployment (job "rel-2") outside (world_in active 1)).0

found_after : find_release "acme" "shop" "rel-1" deployed_world.ledgers ≡ some first
unfolding run_deployment find_release get_releases lookup get_application Deploying.deploy
    Deploying.execute Deploying.validate_release Deploying.generate Deploying.start_container
    Deploying.ask_start Deploying.check_readiness ask save_copy save_application saved transition_to
    is_valid_transition Containers.start track verify_readiness attempts health_policy put
found_after = refl

run_rollback-run_deployment_example :
    ((run_deployment (job "rel-2") outside (world_in active 1)).1 ≡ none)
    × ((run_rollback back quiet deployed_world).1 ≡ none)
    × (get_application "shop" (run_rollback back quiet deployed_world).0 ≡ some (config_in active))
run_rollback-run_deployment_example =
    run_rollback-run_deployment (job "rel-2") back outside quiet (world_in active 1)
      (config_in active) first second refl (read_application active 1) refl refl refl
      (found_second active 1) found_after refl refl refl refl (refl, refl, refl) (refl, refl)

abbrev calls : List Call
calls =
    starts "acme" "shop" none
    ∷ ticks (λ c. false) (λ a. true)
    ∷ stops "shop" true
    ∷ starts "acme" "blog" (some "EACCES")
    ∷ []

none-IsSupervised : IsSupervised no_containers
unfolding lookup get_state
none-IsSupervised a = refl

call_all-IsSupervised_example : IsSupervised (call_all calls no_containers)
call_all-IsSupervised_example = call_all-IsSupervised calls no_containers none-IsSupervised

abbrev one_running : Containers
one_running = record no_containers {
  states = ("shop", running) ∷ [];
  monitored_apps =
      ("shop", record { tenant_id = "acme"; container_name = "sj-app-acme-shop" }) ∷ [];
}

abbrev late : ℕ → Bool
late i = i == 4

verify_readiness-cases_example :
    ((k : ℕ) × (k ≤ (health_policy options).threshold * 2)
      × IsFirst late 0 k
      × ((verify_readiness late "shop" options []).0 ≡ true)
      × (length (verify_readiness late "shop" options []).1 ≡ 0 + k))
    ⊎ (((verify_readiness late "shop" options []).0 ≡ false)
        × ((i : ℕ) → 0 < i → i ≤ (health_policy options).threshold * 2 → late i ≡ false)
        × (length (verify_readiness late "shop" options []).1
            ≡ 0 + (health_policy options).threshold * 2))
verify_readiness-cases_example = verify_readiness-cases late "shop" options []

abbrev digest : Release → String
digest r = "digest"

abbrev created : Release
created = new_release digest 9 (request "sha256:d" "")

find_release-create_release_example :
    (get_latest_release "acme" "shop" (record_release "acme" "shop" created []) ≡ some created)
    × (find_release "acme" "shop" "rel-9" (record_release "acme" "shop" created []) ≡ some created)
unfolding create_release new_release find_release get_releases lookup to_text
find_release-create_release_example =
    find_release-create_release digest 9 (request "sha256:d" "") []
      (record_release "acme" "shop" created []) created refl refl
