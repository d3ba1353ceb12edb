-- ===== src/Pipeline/Runner.antt =====
-- platform/pipeline-engine/pipeline-runner.js: `run`, on the machine, the executor, the releases and
-- the deployments. The secrets, the repositories, the build engine, the cache and the artifacts are
-- outside: what they answer to a step is an argument, and so is `toLowerCase`.
use Prim.Native.String.{◌++◌ as join}
use text.Mathlib.Text.{find?}
use sj_cloud.Prelude.{
  ℕ, String, Bool, ◌||◌, [], ◌∷◌, Option, none, some, lookup, str_eq, if◌then◌else◌, Result, ok,
  err,
}
use sj_cloud.Application.Engine.{World, Failure}
use sj_cloud.Application.Releases
use sj_cloud.Application.Releases.{Release, create_release, ReleaseError, Ledgers}
use sj_cloud.Application.Deploying
use sj_cloud.Application.Deploying.{run_deployment}
use sj_cloud.Pipeline.Executor.{Step, is_found, execute_step}
use sj_cloud.Pipeline.Context.{
  StepStatus, step_success, step_failed, step_skipped, Context, set_env, add_artifact,
  add_step_result,
}

-- what a step learns from outside
pub record Outside : Type 0 where
  pub lower : String → String
  pub has_repository : Bool
  pub sync : Option String
  pub build : Result String (Option String)
  pub restored : Result String Bool
  pub artifact : Result String String
  pub digest : Release → String
  pub drawn : String
  pub now : ℕ
  pub shell : String → Result String String
  pub deploying : Deploying.Outside

-- what a run holds, with the globals
pub record Run : Type 0 where
  pub context : Context
  pub world : World

-- the result of a call: what it leaves behind, and its error
abbrev pub Outcome : Type 0
Outcome = Run × Option String

infixl 10 ◌before◌
abbrev pub ◌before◌ : Outcome → (Run → Outcome) → Outcome
(r, none) before f = f r
(r, some e) before f = (r, some e)

abbrev pub in_context : (Context → Context) → Run → Run
in_context f r = record r { context = f r.context }

-- `step.run.includes(t)`; the error of a step without a command
abbrev pub includes : Option String → String → Result String Bool
includes none t = err "Cannot read properties of undefined (reading 'includes')"
includes (some command) t = ok (is_found (find? command t))

-- the record of a step that did not throw, or the error
abbrev pub told : String → Step → StepStatus → Run → Outcome
told stage step status r =
    (in_context (add_step_result stage (record { name = step.name; status = status })) r, none)

abbrev pub sync_step : Outside → String → Step → Run → Outcome
sync_step o stage step r =
    if o.has_repository
    then (elim o.sync [ none ↦ told stage step step_success r | some e ↦ (r, some e) ])
    else (r, some "No registered Git repositories found")

abbrev pub release_error : ReleaseError → String
release_error Releases.missing_application_id =
    "Failed to create release: Release is missing application_id"
release_error Releases.missing_image_digest =
    "Failed to create release: Release is missing image_digest"
release_error Releases.missing_checksum =
    "Failed to create release: Release is missing immutable checksum"

-- the release of a build
abbrev pub build_request : String → String → Option String → Releases.Request
build_request tenant_id app_id image = record {
  app_id = app_id;
  tenant_id = tenant_id;
  image_digest = elim image [
    | none ↦ "sha256:mockdigestvaltestappf45e88863fef450011"
    | some d ↦ Releases.text_or d "sha256:mockdigestvaltestappf45e88863fef450011"
  ];
  strategy = "";
  health = record { initial_delay = none; interval = none; threshold = none };
  env_snapshot = ("NODE_ENV", "production") ∷ [];
  secrets_snapshot = [];
}

abbrev pub released : String → Step → Run → Result ReleaseError (Release × Ledgers) → Outcome
released stage step r (err e) = (r, some (release_error e))
released stage step r (ok (release, ledgers)) = told stage step step_success (record {
  context = set_env "RELEASE_ID" release.release_id r.context;
  world = record r.world { ledgers = ledgers };
})

abbrev pub built :
    Outside → String → String → String → Step → Result String (Option String) → Run → Outcome
built o tenant_id app_id stage step (err e) r = (r, some e)
built o tenant_id app_id stage step (ok image) r =
    released stage step r
      (create_release o.digest o.now (build_request tenant_id app_id image) r.world.ledgers)

-- the hook of the build engine
unfoldable pub build_step : Outside → String → String → String → Step → Run → Outcome
build_step o tenant_id app_id stage step r = built o tenant_id app_id stage step o.build r

-- the identifier of the release to deploy
abbrev pub release_to_deploy : String → Option String → String
release_to_deploy drawn none = join "rel-" drawn
release_to_deploy drawn (some id) = if str_eq id "" then join "rel-" drawn else id

abbrev pub deploy_told : String → Step → Run → World × Option Failure → Outcome
deploy_told stage step r (w, none) = told stage step step_success (record r { world = w })
deploy_told stage step r (w, some e) = (record r { world = w }, some "Deployment failed")

-- the hook of the deployment engine
unfoldable pub deploy_step : Outside → String → String → String → Step → Run → Outcome
deploy_step o tenant_id app_id stage step r = deploy_told stage step r (
    run_deployment
      (record {
        app_id = app_id;
        tenant_id = tenant_id;
        release_id = release_to_deploy o.drawn (lookup "RELEASE_ID" r.context.env);
        now = o.now;
      })
      o.deploying r.world)

abbrev pub restore_step : String → Step → Result String Bool → Run → Outcome
restore_step stage step (err e) r = (r, some e)
restore_step stage step (ok b) r = told stage step (if b then step_success else step_skipped) r

abbrev pub publish_step : String → Step → Result String String → Run → Outcome
publish_step stage step (err e) r = (r, some e)
publish_step stage step (ok a) r = told stage step step_success (in_context (add_artifact a) r)

abbrev pub command_told : String → Step → Result String String → Run → Outcome
command_told stage step (ok logs) r = told stage step step_success r
command_told stage step (err e) r = (r, some e)

-- `executeStep` and its record
unfoldable pub command_step : Outside → String → Step → Run → Outcome
command_step o stage step r = command_told stage step (execute_step step o.shell).1 r

-- the hooks by the name of the stage, in small letters
pub data Hook : Type 0 where
  checkout build_engine deploy_engine restore_cache publish_artifact standard : Hook

abbrev pub includes_any : Option String → Result String Bool
includes_any none = err "Cannot read properties of undefined (reading 'includes')"
includes_any (some command) = ok (
    is_found (find? command "git clone")
    || (is_found (find? command "git-clone") || is_found (find? command "checkout")))

abbrev pub hook_if : Hook → Result String Bool → Result String Hook
hook_if h (err e) = err e
hook_if h (ok b) = ok (if b then h else standard)

-- the chain of tests; where a test does not hold for the command, no later name is this one
unfoldable pub hook : String → Option String → Result String Hook
hook name command =
    if str_eq name "checkout"
    then hook_if checkout (includes_any command)
    else if str_eq name "build"
    then hook_if build_engine (includes command "build-engine")
    else if str_eq name "deploy"
    then hook_if deploy_engine (includes command "deploy-engine")
    else if str_eq name "restore cache" || str_eq name "restore-cache"
    then ok restore_cache
    else if str_eq name "publish artifact" || str_eq name "publish-artifact"
    then ok publish_artifact
    else ok standard

abbrev pub hooked : Outside → String → String → String → Step → Result String Hook → Run → Outcome
hooked o tenant_id app_id stage step (err e) r = (r, some e)
hooked o tenant_id app_id stage step (ok checkout) r = sync_step o stage step r
hooked o tenant_id app_id stage step (ok build_engine) r =
    build_step o tenant_id app_id stage step r
hooked o tenant_id app_id stage step (ok deploy_engine) r =
    deploy_step o tenant_id app_id stage step r
hooked o tenant_id app_id stage step (ok restore_cache) r = restore_step stage step o.restored r
hooked o tenant_id app_id stage step (ok publish_artifact) r = publish_step stage step o.artifact r
hooked o tenant_id app_id stage step (ok standard) r = command_step o stage step r

-- the `catch` of a step
abbrev pub failing : String → Step → Outcome → Outcome
failing stage step (r, none) = (r, none)
failing stage step (r, some e) = (
  in_context (add_step_result stage (record { name = step.name; status = step_failed })) r,
  some e,
)

-- a step of a stage that is not parallel
unfoldable pub run_step : Outside → String → String → String → Step → Run → Outcome
run_step o tenant_id app_id stage step r =
    failing stage step (hooked o tenant_id app_id stage step (hook (o.lower stage) step.run) r)
