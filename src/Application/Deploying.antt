-- ===== src/Application/Deploying.antt =====
-- platform/application-manager/deployment: deployment-plan.js, deployment-validator.js,
-- deployment-executor.js, deployment-history.js and deployment-engine.js.
pub mod Starting
pub mod Metering
pub mod Course
pub mod Ending
use sj_cloud.Prelude.{
  ℕ, String, Bool, true, false, List, [], ◌∷◌, Option, none, some, str_eq, to_text, if◌then◌else◌,
  Result, ok, err,
}
use Prim.Native.String.{◌++◌ as join}
use sj_cloud.Application.Deployment.{
  DeploymentState, created, deploying, verifying, active, updating, failed, same,
}
use sj_cloud.Application.Containers
use sj_cloud.Application.Containers.{Containers}
use sj_cloud.Application.Readiness.{Options, verify_readiness}
use sj_cloud.Application.Releases.{Release, text_or, find_release}
use sj_cloud.Application.Engine.{
  World, Config, Entry, Failure, not_registered, release_not_found, release_of_other, thrown,
  Engine, Outcome, ◌before◌, swallowed, ask, get_application, save_copy, record_entry, status_or,
}

pub data Step : Type 0 where
  stop_old : Step
  start_new : Release → Step
  verify_step : Option Release → Step
  stop_previous : Step

-- `DeploymentPlan.generate`
unfoldable pub generate : String → Release → List Step
generate strategy release =
    if str_eq strategy "Recreate"
    then stop_old ∷ start_new release ∷ []
    else start_new release ∷ verify_step none ∷ stop_previous ∷ []

-- what a run learns from outside: the error of writing the container's files, whether the
-- application has its directory, the answers of its health endpoint, and the errors of saving its
-- configuration at the end and after a failure
pub record Outside : Type 0 where
  pub files : Option String
  pub has_directory : Bool
  pub answers : ℕ → Bool
  pub saving : Option String
  pub marking : Option String

-- the request
pub record Job : Type 0 where
  pub app_id : String
  pub tenant_id : String
  pub release_id : String
  pub now : ℕ

abbrev pub with_containers : Containers → Engine → Engine
with_containers c g = record g { world = record g.world { containers = c } }

abbrev pub contained : Engine → Result String Containers → Outcome
contained g (ok c) = (with_containers c g, none)
contained g (err e) = (g, some (thrown e))

-- `globalRuntimeManager.start` of an application
unfoldable pub start_container : String → String → Option String → Engine → Outcome
start_container tenant_id app_id files g =
    contained g (Containers.start tenant_id app_id files g.world.containers)

abbrev pub policy_options : Option Release → Options
policy_options none = record { initial_delay = none; interval = none; threshold = none }
policy_options (some r) = r.health_policy

-- `verifyReadiness` with its error caught
unfoldable pub check_readiness : String → (ℕ → Bool) → Options → Engine → Engine
check_readiness app_id answers o g = record g {
  world = record g.world { checks = (verify_readiness answers app_id o g.world.checks).1 };
}

-- the transition before a container is started, its error caught
unfoldable pub ask_start : String → Engine → Engine
ask_start app_id g = swallowed (ask app_id (if same g.state active then updating else deploying) g)

-- the body of the loop of `execute`
abbrev pub run_step : Job → Outside → Step → Engine → Outcome
run_step job o stop_old g =
    (with_containers (Containers.stop job.app_id o.has_directory g.world.containers) g, none)
run_step job o (start_new release) g =
    start_container job.tenant_id job.app_id o.files (ask_start job.app_id g)
run_step job o (verify_step release) g = (
  check_readiness job.app_id o.answers (policy_options release)
      (swallowed (ask job.app_id verifying g)),
  none,
)
run_step job o stop_previous g = (g, none)

-- `execute`
unfoldable pub execute : Job → Outside → List Step → Engine → Outcome
execute job o [] g = (g, none)
execute job o (s ∷ rest) g = run_step job o s g before execute job o rest

abbrev pub note : Job → String → Engine → Engine
note job status g = record g {
  world = record g.world {
    deployments =
        record_entry
          (record { app_id = job.app_id; run_id = join "dep-" (to_text job.now); status = status })
          g.world.deployments;
  };
}

-- `validate` of a configuration and a release that are there
unfoldable pub validate_release : Config → Release → Engine → Outcome
validate_release c r g =
    if str_eq c.application_id r.application_id
    then (g, none)
    else (g, some (release_of_other r.application_id))

-- the status, the image and the version that a deployment writes to its copy when it is done
abbrev pub deployed_copy : Release → Engine → Engine
deployed_copy r g = record g {
  config = record g.config {
    status = some active;
    source = record { image = r.image_digest; version = r.runtime_version };
  };
}

-- the `try` block of `runDeployment`
unfoldable pub deploy : Job → Outside → Release → Engine → Outcome
deploy job o r g =
    validate_release g.config r g
    before (λ h.
        execute job o (generate (text_or r.deployment_strategy "Rolling") r)
          (note job "DEPLOYING" h))
    before ask job.app_id active
    before (λ h. save_copy o.saving (deployed_copy r (note job "ACTIVE" h)))

abbrev pub failed_copy : Engine → Engine
failed_copy g = record g { config = record g.config { status = some failed } }

-- the error that leaves the `catch` block: that of saving, or the first
abbrev pub rethrown : Failure → Outcome → World × Option Failure
rethrown e (g, none) = (g.world, some e)
rethrown e (g, some f) = (g.world, some f)

-- the `catch` block
abbrev pub mark_failed : Job → Outside → Outcome → World × Option Failure
mark_failed job o (g, none) = (g.world, none)
mark_failed job o (g, some e) =
    rethrown e
      (save_copy o.marking (failed_copy (note job "FAILED" (swallowed (ask job.app_id failed g)))))

abbrev pub run_with :
    Job → Outside → Option Config → Option Release → World → World × Option Failure
run_with job o none r w = (w, some (not_registered job.app_id))
run_with job o (some c) none w = (w, some (release_not_found job.release_id))
run_with job o (some c) (some r) w =
    mark_failed job o
      (deploy job o r (record { state = status_or created c.status; config = c; world = w }))

-- `runDeployment`
unfoldable pub run_deployment : Job → Outside → World → World × Option Failure
run_deployment job o w =
    run_with job o (get_application job.app_id w)
      (find_release job.tenant_id job.app_id job.release_id w.ledgers) w
