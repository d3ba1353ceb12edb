-- ===== src/Pipeline/Metering/Steps.antt =====
-- The count of active applications across the steps of a run.
use sj_cloud.Prelude.{
  String, Bool, List, [], ◌∷◌, Option, none, some, lookup, Result, ok, err, Bool-cases,
  Option-cases, inl, inr,
}
use sj_cloud.Application.Metering.{IsAccounted}
use sj_cloud.Application.Engine.{World, Failure}
use sj_cloud.Application.Releases.{Release, Ledgers, ReleaseError, create_release}
use sj_cloud.Application.Deploying
use sj_cloud.Application.Deploying.{run_deployment}
use sj_cloud.Application.Deploying.Metering.{run_deployment-IsAccounted}
use sj_cloud.Pipeline.Executor.{Step, execute_step}
use sj_cloud.Pipeline.Runner.{
  Outside, Run, Outcome, ◌before◌, sync_step, released, built, build_request, build_step,
  release_to_deploy, deploy_told, deploy_step, restore_step, publish_step, command_told,
  command_step, Hook, checkout, build_engine, deploy_engine, restore_cache, publish_artifact,
  standard, hook, hooked, failing, run_step,
}
use sj_cloud.Pipeline.Rounds.{Identity, run_steps, run_parallel}

-- the count is that of the registry
abbrev pub Meters : Run → Type 0
Meters r = IsAccounted r.world.platform

pub deploy_told-Meters :
    (stage : String) (step : Step) (r : Run) (x : World × Option Failure)
    → IsAccounted x.0.platform
    → Meters (deploy_told stage step r x).0
deploy_told-Meters stage step r (w, none) m = m
deploy_told-Meters stage step r (w, some e) m = m

pub released-Meters :
    (stage : String) (step : Step) (r : Run) (x : Result ReleaseError (Release × Ledgers))
    → Meters r
    → Meters (released stage step r x).0
released-Meters stage step r (ok (a, l)) m = m
released-Meters stage step r (err e) m = m

pub built-Meters :
    (o : Outside) (tenant app stage : String) (step : Step) (x : Result String (Option String))
    → (r : Run) → Meters r
    → Meters (built o tenant app stage step x r).0
built-Meters o tenant app stage step (err e) r m = m
built-Meters o tenant app stage step (ok image) r m =
    released-Meters stage step r
      (create_release o.digest o.now (build_request tenant app image) r.world.ledgers) m

pub restore_step-Meters :
    (stage : String) (step : Step) (x : Result String Bool) (r : Run)
    → Meters r
    → Meters (restore_step stage step x r).0
restore_step-Meters stage step (ok b) r m = m
restore_step-Meters stage step (err e) r m = m

pub publish_step-Meters :
    (stage : String) (step : Step) (x : Result String String) (r : Run)
    → Meters r
    → Meters (publish_step stage step x r).0
publish_step-Meters stage step (ok b) r m = m
publish_step-Meters stage step (err e) r m = m

pub command_told-Meters :
    (stage : String) (step : Step) (x : Result String String) (r : Run)
    → Meters r
    → Meters (command_told stage step x r).0
command_told-Meters stage step (ok b) r m = m
command_told-Meters stage step (err e) r m = m

pub sync_step-Meters :
    (o : Outside) (stage : String) (step : Step) (r : Run)
    → Meters r
    → Meters (sync_step o stage step r).0
sync_step-Meters o stage step r m = elim (Bool-cases o.has_repository) [
  | inr e ↦ rw e m
  | inl e ↦ elim (Option-cases o.sync) [ inl f ↦ rw (e, f) m | inr (x, f) ↦ rw (e, f) m ]
]

pub command_step-Meters :
    (o : Outside) (stage : String) (step : Step) (r : Run)
    → Meters r
    → Meters (command_step o stage step r).0
unfolding command_step
command_step-Meters o stage step r m =
    command_told-Meters stage step (execute_step step o.shell).1 r m

pub hooked-Meters :
    (o : Outside) (tenant app stage : String) (step : Step) (h : Result String Hook) (r : Run)
    → Meters r
    → Meters (hooked o tenant app stage step h r).0
unfolding build_step deploy_step
hooked-Meters o tenant app stage step (err e) r m = m
hooked-Meters o tenant app stage step (ok checkout) r m = sync_step-Meters o stage step r m
hooked-Meters o tenant app stage step (ok build_engine) r m =
    built-Meters o tenant app stage step o.build r m
hooked-Meters o tenant app stage step (ok deploy_engine) r m =
    let job : Deploying.Job = record {
      app_id = app;
      tenant_id = tenant;
      release_id = release_to_deploy o.drawn (lookup "RELEASE_ID" r.context.env);
      now = o.now;
    } in
    deploy_told-Meters stage step r (run_deployment job o.deploying r.world)
      (run_deployment-IsAccounted job o.deploying r.world m)
hooked-Meters o tenant app stage step (ok restore_cache) r m =
    restore_step-Meters stage step o.restored r m
hooked-Meters o tenant app stage step (ok publish_artifact) r m =
    publish_step-Meters stage step o.artifact r m
hooked-Meters o tenant app stage step (ok standard) r m = command_step-Meters o stage step r m

pub failing-Meters :
    (stage : String) (step : Step) (x : Outcome) → Meters x.0 → Meters (failing stage step x).0
failing-Meters stage step (r, none) m = m
failing-Meters stage step (r, some e) m = m

pub run_step-Meters :
    (o : Outside) (tenant app stage : String) (step : Step) (r : Run)
    → Meters r
    → Meters (run_step o tenant app stage step r).0
unfolding run_step
run_step-Meters o tenant app stage step r m =
    let h = hook (o.lower stage) step.run in
    failing-Meters stage step (hooked o tenant app stage step h r)
      (hooked-Meters o tenant app stage step h r m)

pub before-Meters :
    (x : Outcome) (f : Run → Outcome)
    → Meters x.0
    → ((r : Run) → Meters r → Meters (f r).0)
    → Meters (x before f).0
before-Meters (r, none) f m h = h r m
before-Meters (r, some e) f m h = m

pub run_steps-Meters :
    (who : Identity) (stage : String) (steps : List (Step × Outside)) (r : Run)
    → Meters r
    → Meters (run_steps who stage steps r).0
unfolding run_steps
run_steps-Meters who stage [] r m = m
run_steps-Meters who stage ((step, o) ∷ rest) r m =
    before-Meters (run_step o who.tenant_id who.app_id stage step r) (run_steps who stage rest)
      (run_step-Meters o who.tenant_id who.app_id stage step r m) (run_steps-Meters who stage rest)

pub run_parallel-Meters :
    (stage : String) (steps : List (Step × Outside)) (r : Run)
    → Meters r
    → Meters (run_parallel stage steps r).0
unfolding run_parallel
run_parallel-Meters stage [] r m = m
run_parallel-Meters stage ((step, o) ∷ rest) r m =
    run_parallel-Meters stage rest (failing stage step (command_step o stage step r)).0 (
      failing-Meters stage step (command_step o stage step r)
        (command_step-Meters o stage step r m))
