-- ===== src/Pipeline/RunExamples.antt =====
-- The theorems of whole runs at concrete inputs.
use sj_cloud.Prelude.{◌≡◌, refl, String, true, false, [], ◌∷◌, none, some, lookup, to_text, ok}
use sj_cloud.Application.Deployment.{no_metrics}
use sj_cloud.Application.Engine.{World}
use sj_cloud.Application.Deploying.{run_deployment}
use sj_cloud.Application.Releases.{Release, find_release, get_releases, create_release, new_release}
use sj_cloud.Pipeline.Machine
use sj_cloud.Pipeline.Machine.{PipelineState, running, success, failed, cancelled, same}
use sj_cloud.Pipeline.Executor.{Step}
use sj_cloud.Pipeline.Context.{new_context, start_stage}
use sj_cloud.Pipeline.Runner.{Outside, Run, build_step, deploy_step, deploy_told, run_step, hook}
use sj_cloud.Pipeline.Rounds.{
  Identity, Files, StageConfig, Config, Globals, Pipelines, run, run_stages, run_stage, run_steps,
}
use sj_cloud.Pipeline.Ends.{EndsIn, run-EndsIn}
use sj_cloud.Pipeline.Delivery.{build_release, deploy_step-build_step}

abbrev world : World
world = record {
  platform = record { statuses = []; metrics = no_metrics; faults = [] };
  sources = [];
  ledgers = [];
  containers = record {
    states = [];
    monitored_apps = [];
    runtime_restart_total = 0;
    runtime_recovery_total = 0;
  };
  checks = [];
  deployments = [];
  rollbacks = [];
}

abbrev outside : Outside
outside = record {
  lower = λ t. t;
  has_repository = false;
  sync = none;
  build = ok (some "sha256:d");
  restored = ok true;
  artifact = ok "art-1";
  digest = λ r. "digest";
  drawn = "x";
  now = 9;
  shell = λ c. ok "";
  deploying = record {
    files = none;
    has_directory = true;
    answers = λ i. true;
    saving = none;
    marking = none;
  };
}

abbrev step : String → Step
step command = record { name = some "step"; run = some command; retry = none }

abbrev who : Identity
who = record { pipeline_id = "pipe-1"; tenant_id = "acme"; app_id = "shop" }

abbrev globals : Globals
globals = record { metrics = Machine.no_metrics; runs = []; history = [] }

abbrev stage : String → String → StageConfig
stage name command = record {
  name = name;
  parallel = false;
  steps = (step command, outside) ∷ [];
  saving = none;
}

abbrev config : Config
config = record {
  env = [];
  stages = stage "build" "build-engine" ∷ stage "deploy" "deploy-engine" ∷ [];
}

-- the history cannot be written after the last stage
abbrev files : Files
files = record {
  start_saved = none;
  start_logged = none;
  done_saved = none;
  done_logged = some "ENOSPC";
  failed_saved = none;
  failed_logged = none;
}

run-EndsIn_example : EndsIn who files globals (run who files [] config world globals)
run-EndsIn_example = run-EndsIn who files [] config world globals

abbrev start : Pipelines
start = record {
  run = record { context = record (new_context []) { status = running }; world = world };
  globals = globals;
}

abbrev clone : StageConfig
clone = stage "checkout" "git clone"

abbrev stopped : Pipelines
stopped = (run_stage who clone start).0

no_stages : run_stages who [] start ≡ (start, none)
unfolding run_stages
no_stages = refl

clone_throws : run_stage who clone start ≡ (stopped, some "No registered Git repositories found")
unfolding run_stage run_steps run_step hook
clone_throws = refl

abbrev before_build : Run
before_build = record { context = start_stage "build" (new_context []); world = world }

abbrev after_build : Run
after_build = (build_step outside "acme" "shop" "build" (step "build-engine") before_build).0

build_done :
    build_step outside "acme" "shop" "build" (step "build-engine") before_build
    ≡ (after_build, none)
unfolding build_step create_release new_release
build_done = refl

none_before :
    find_release "acme" "shop" (build_release outside "acme" "shop" (some "sha256:d")).release_id []
    ≡ none
unfolding find_release get_releases lookup
none_before = refl

abbrev release_built : Release
release_built = build_release outside "acme" "shop" (some "sha256:d")

deploy_step-build_step_example :
    (deploy_step outside "acme" "shop" "deploy" (step "deploy-engine") after_build
      ≡ deploy_told "deploy" (step "deploy-engine") after_build (
          run_deployment
            (record {
              app_id = "shop";
              tenant_id = "acme";
              release_id = release_built.release_id;
              now = outside.now;
            })
            outside.deploying
            after_build.world))
    × (find_release "acme" "shop" release_built.release_id after_build.world.ledgers
        ≡ some release_built)
unfolding new_release to_text
deploy_step-build_step_example =
    deploy_step-build_step outside outside "acme" "shop" "build" "deploy" (step "build-engine")
      (step "deploy-engine") (some "sha256:d") before_build after_build refl build_done none_before
      refl
