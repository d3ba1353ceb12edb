-- ===== src/Pipeline/Rounds.antt =====
-- platform/pipeline-engine/pipeline-runner.js: the stages of a run, its machine and its end; and
-- `cancelPipelineRun` of pipeline-engine.js. A run that is saved is kept in memory (`activeRuns` of
-- pipeline-state.js), with its status, once its file is written; what writing a file throws is an
-- argument, and the text logs are left out.
use sj_cloud.Prelude.{
  String, Bool, ◌||◌, List, [], ◌∷◌, ◌++◌, Option, none, some, Dict, lookup, put, if◌then◌else◌,
  Result, ok, err,
}
use sj_cloud.Application.Engine.{World}
use sj_cloud.Pipeline.Machine.{
  PipelineState, queued, running, success, failed, cancelled, same, Metrics, TransitionError,
  transition_to,
}
use sj_cloud.Pipeline.Executor.{Step}
use sj_cloud.Pipeline.Context.{Context, new_context, set_env, start_stage, complete_stage}
use sj_cloud.Pipeline.Runner.{
  Outside, Run, Outcome, ◌before◌, in_context, command_step, failing, run_step,
}

-- a stage, each step with what it learns from outside, and the error of saving the run after it
pub record StageConfig : Type 0 where
  pub name : String
  pub parallel : Bool
  pub steps : List (Step × Outside)
  pub saving : Option String

-- the errors of saving the run and of writing its history at the start, at the end and in the `catch`
pub record Files : Type 0 where
  pub start_saved : Option String
  pub start_logged : Option String
  pub done_saved : Option String
  pub done_logged : Option String
  pub failed_saved : Option String
  pub failed_logged : Option String

pub record Config : Type 0 where
  pub env : Dict String
  pub stages : List StageConfig

pub record Identity : Type 0 where
  pub pipeline_id : String
  pub tenant_id : String
  pub app_id : String

-- the steps one after the other, up to the first error
unfoldable pub run_steps : Identity → String → List (Step × Outside) → Run → Outcome
run_steps who stage [] r = (r, none)
run_steps who stage ((step, o) ∷ rest) r =
    run_step o who.tenant_id who.app_id stage step r before run_steps who stage rest

abbrev pub first_error : Option String → Option String → Option String
first_error none e = e
first_error (some e) f = some e

-- `Promise.all`: every step is executed, and the first error is that of the stage
unfoldable pub run_parallel : String → List (Step × Outside) → Run → Outcome
run_parallel stage [] r = (r, none)
run_parallel stage ((step, o) ∷ rest) r =
    let one = failing stage step (command_step o stage step r) in
    let others = run_parallel stage rest one.0 in (others.0, first_error one.1 others.1)

-- what all runs share
pub record Globals : Type 0 where
  pub metrics : Metrics
  pub runs : Dict PipelineState
  pub history : List (String × String)

pub record Pipelines : Type 0 where
  pub run : Run
  pub globals : Globals

abbrev pub Ended : Type 0
Ended = Pipelines × Option String

-- `saveRun` of the context as it is
abbrev pub save_run : Identity → Option String → Pipelines → Ended
save_run who (some e) p = (p, some e)
save_run who none p = (
  record p {
    globals = record p.globals { runs = put who.pipeline_id p.run.context.status p.globals.runs };
  },
  none,
)

abbrev pub log_history : Identity → Option String → String → Pipelines → Ended
log_history who (some e) event p = (p, some e)
log_history who none event p = (
  record p {
    globals = record p.globals { history = p.globals.history ++ ((who.pipeline_id, event) ∷ []) };
  },
  none,
)

infixl 10 ◌then_run◌
abbrev pub ◌then_run◌ : Ended → (Pipelines → Ended) → Ended
(p, none) then_run f = f p
(p, some e) then_run f = (p, some e)

abbrev pub stage_done : Identity → StageConfig → Outcome → Globals → Ended
stage_done who c (r, some e) g = (record { run = r; globals = g }, some e)
stage_done who c (r, none) g =
    save_run who c.saving (record { run = in_context (complete_stage c.name) r; globals = g })

-- the body of the loop over the stages
unfoldable pub run_stage : Identity → StageConfig → Pipelines → Ended
run_stage who c p =
    let r = in_context (start_stage c.name) p.run in
    let parallel = run_parallel c.name c.steps r in
    let sequence = run_steps who c.name c.steps r in
    stage_done who c (if c.parallel then parallel else sequence) p.globals

unfoldable pub run_stages : Identity → List StageConfig → Pipelines → Ended
run_stages who [] p = (p, none)
run_stages who (c ∷ rest) p = run_stage who c p then_run run_stages who rest

-- the machine of the run, with the metrics
abbrev pub with_metrics : Metrics → Pipelines → Pipelines
with_metrics m p = record p { globals = record p.globals { metrics = m } }

abbrev pub with_end : PipelineState → Option String → Pipelines → Pipelines
with_end status error p = record p {
  run = in_context (λ c. record c { status = status; error = error }) p.run;
}

-- a transition whose error is caught
abbrev pub caught_metrics : Metrics → Result TransitionError (PipelineState × Metrics) → Metrics
caught_metrics m (ok (state, n)) = n
caught_metrics m (err e) = m

-- the error that leaves the `catch` block: that of a file, or the first
abbrev pub rethrown : String → Ended → Ended
rethrown e (p, none) = (p, some e)
rethrown e (p, some f) = (p, some f)

-- the `catch` block, with the state of the machine
unfoldable pub caught : Identity → Files → PipelineState → Ended → Ended
caught who fs state (p, none) = (p, none)
caught who fs state (p, some e) =
    let m = caught_metrics p.globals.metrics (transition_to failed state p.globals.metrics) in
    rethrown e (
      save_run who fs.failed_saved (with_metrics m (with_end failed (some e) p))
      then_run log_history who fs.failed_logged "PIPELINE_RUN_FAILED")

-- the end of the `try` block
abbrev pub succeeded :
    Identity → Files → Pipelines → Result TransitionError (PipelineState × Metrics) → Ended
succeeded who fs p (err e) =
    caught who fs running (with_end success none p, some "Invalid pipeline transition")
succeeded who fs p (ok (state, m)) = caught who fs state (
    save_run who fs.done_saved (with_metrics m (with_end success none p))
    then_run log_history who fs.done_logged "PIPELINE_RUN_SUCCESS")

-- what follows the loop of the stages, with the machine still `RUNNING`
abbrev pub finished : Identity → Files → Ended → Ended
finished who fs (p, none) = succeeded who fs p (transition_to success running p.globals.metrics)
finished who fs (p, some e) = caught who fs running (p, some e)

-- the secrets that could be read before the first error
abbrev pub inject : Dict String → Context → Context
inject [] c = c
inject ((key, value) ∷ rest) c = inject rest (set_env key value c)

abbrev pub begun : Identity → Config → World → Globals → Pipelines
begun who config w g = record {
  run = record { context = record (new_context config.env) { status = running }; world = w };
  globals = g;
}

abbrev pub opened :
    Identity
    → Files
    → Dict String
    → Config
    → World
    → Globals
    → Result TransitionError (PipelineState × Metrics)
    → Ended
opened who fs secrets config w g (err e) =
    (begun who config w g, some "Invalid pipeline transition")
opened who fs secrets config w g (ok (state, m)) =
    save_run who fs.start_saved (with_metrics m (begun who config w g))
    then_run log_history who fs.start_logged "PIPELINE_RUN_STARTED"
    then_run (λ p.
        finished who fs
          (run_stages who config.stages (record p { run = in_context (inject secrets) p.run })))

-- `run`
unfoldable pub run : Identity → Files → Dict String → Config → World → Globals → Ended
run who fs secrets config w g =
    opened who fs secrets config w g (transition_to running queued g.metrics)

pub data CancelError : Type 0 where
  run_not_found already_finished : CancelError

abbrev pub cancel_moved :
    String → Globals → Result TransitionError (PipelineState × Metrics) → Result CancelError Globals
cancel_moved id g (ok (state, m)) = ok (record g { runs = put id cancelled g.runs; metrics = m })
cancel_moved id g (err e) = ok (record g { runs = put id cancelled g.runs })

abbrev pub cancel_found : String → Option PipelineState → Globals → Result CancelError Globals
cancel_found id none g = err run_not_found
cancel_found id (some status) g =
    if same status success || same status failed
    then err already_finished
    else cancel_moved id g (transition_to cancelled running g.metrics)

-- `cancelPipelineRun`, which builds a machine that is `RUNNING` whatever the run's status is
unfoldable pub cancel_pipeline_run : String → Globals → Result CancelError Globals
cancel_pipeline_run id g = cancel_found id (lookup id g.runs) g
