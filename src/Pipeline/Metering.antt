-- ===== src/Pipeline/Metering.antt =====
-- The count of active applications across whole runs.
pub mod Steps
use sj_cloud.Prelude.{Bool, lookup, Result, ok, err, Option-cases}
use sj_cloud.Application.Engine.{Failure}
use sj_cloud.Application.Releases.{Release, Ledgers, ReleaseError, create_release}
use sj_cloud.Application.Deploying
use sj_cloud.Application.Deploying.{run_deployment}
use sj_cloud.Application.Deploying.Metering.{run_deployment-IsAccounted}
use sj_cloud.Pipeline.Executor.{Step, execute_step}
use sj_cloud.Pipeline.Runner.{
  Outside, Run, ◌before◌, sync_step, released, built, build_request, build_step, release_to_deploy,
  deploy_told, deploy_step, restore_step, publish_step, command_told, command_step, Hook, checkout,
  build_engine, deploy_engine, restore_cache, publish_artifact, standard, hook, hooked, failing,
  run_step,
}
use sj_cloud.Pipeline.Rounds.{Ended, run}
use sj_cloud.Pipeline.Metering.Steps.{
  Meters, deploy_told-Meters, released-Meters, built-Meters, restore_step-Meters,
  publish_step-Meters, command_told-Meters, sync_step-Meters, command_step-Meters, hooked-Meters,
  failing-Meters, run_step-Meters, before-Meters,
}

-- the same of what a run leaves
abbrev MetersEnd : Ended → Type 0
MetersEnd x = Meters x.0.run
