-- ===== src/Application/Reverting.antt =====
-- platform/application-manager/rollback: rollback-validator.js, rollback-history.js and
-- rollback-engine.js.
pub mod Course
pub mod Restored
pub mod Undone
use sj_cloud.Prelude.{ℕ, String, Bool, Option, none, some, str_eq, if◌then◌else◌}
use sj_cloud.Application.Deployment.{DeploymentState, verifying, active, failed, rollback}
use sj_cloud.Application.Releases.{Release, find_release}
use sj_cloud.Application.Engine.{
  World, Config, Failure, not_registered, release_not_found, missing_field, Engine, Outcome,
  ◌before◌, swallowed, ask, get_application, save_copy, record_entry, status_or,
}
use sj_cloud.Application.Deploying.{start_container, check_readiness}

-- what a rollback learns from outside, as a deployment does
pub record Outside : Type 0 where
  pub files : Option String
  pub answers : ℕ → Bool
  pub saving : Option String

pub record Job : Type 0 where
  pub app_id : String
  pub tenant_id : String
  pub target_id : String

-- `validate` of a release that is there
unfoldable pub validate_target : Release → Engine → Outcome
validate_target r g =
    if str_eq r.release_id ""
    then (g, some (missing_field "release_id"))
    else if str_eq r.image_digest ""
    then (g, some (missing_field "image_digest"))
    else (g, none)

abbrev pub note : Job → String → Engine → Engine
note job status g = record g {
  world = record g.world {
    rollbacks =
        record_entry (record { app_id = job.app_id; run_id = job.target_id; status = status })
          g.world.rollbacks;
  };
}

-- the image and the version that a rollback writes to its copy; the status stays the one that was
-- read at the start
abbrev pub reverted_copy : Release → Engine → Engine
reverted_copy r g = record g {
  config = record g.config {
    source = record { image = r.image_digest; version = r.runtime_version };
  };
}

-- the `try` block of `runRollback`
unfoldable pub revert : Job → Outside → Release → Engine → Outcome
revert job o r g =
    validate_target r g
    before ask job.app_id rollback
    before (λ h. start_container job.tenant_id job.app_id o.files (note job "STARTED" h))
    before ask job.app_id verifying
    before (λ h. ask job.app_id active (check_readiness job.app_id o.answers r.health_policy h))
    before (λ h. save_copy o.saving (reverted_copy r (note job "COMPLETED" h)))

-- the `catch` block
abbrev pub mark_failed : Job → Outcome → World × Option Failure
mark_failed job (g, none) = (g.world, none)
mark_failed job (g, some e) =
    ((note job "FAILED" (swallowed (ask job.app_id failed g))).world, some e)

abbrev pub run_with :
    Job → Outside → Option Config → Option Release → World → World × Option Failure
run_with job o none r w = (w, some (not_registered job.app_id))
run_with job o (some c) none w = (w, some (release_not_found job.target_id))
run_with job o (some c) (some r) w =
    mark_failed job
      (revert job o r (record { state = status_or failed c.status; config = c; world = w }))

-- `runRollback`
unfoldable pub run_rollback : Job → Outside → World → World × Option Failure
run_rollback job o w =
    run_with job o (get_application job.app_id w)
      (find_release job.tenant_id job.app_id job.target_id w.ledgers) w
