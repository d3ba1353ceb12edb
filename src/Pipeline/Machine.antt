-- ===== src/Pipeline/Machine.antt =====
-- platform/pipeline-engine/pipeline-fsm.js: the state machine of a run and the metrics that all of
-- them share. Of the event that a transition emits, the type is kept.
use sj_cloud.Prelude.{
  ℕ, ◌+◌, String, Bool, true, false, ◌&&◌, List, [], ◌∷◌, ◌++◌, some_of, if◌then◌else◌, Result, ok,
  err,
}

pub data PipelineState : Type 0 where
  queued running success failed cancelled : PipelineState

-- `a === b` on states
abbrev pub same : PipelineState → PipelineState → Bool
same queued queued = true
same running running = true
same success success = true
same failed failed = true
same cancelled cancelled = true
same _ _ = false

-- `VALID_TRANSITIONS`
abbrev pub valid_transitions : PipelineState → List PipelineState
valid_transitions queued = running ∷ cancelled ∷ []
valid_transitions running = success ∷ failed ∷ cancelled ∷ []
valid_transitions success = []
valid_transitions failed = []
valid_transitions cancelled = []

-- `fsmMetrics`, with the types of the events that were emitted
pub record Metrics : Type 0 where
  pub pipeline_runs_total : ℕ
  pub pipeline_runs_success : ℕ
  pub pipeline_runs_failed : ℕ
  pub pipeline_runs_cancelled : ℕ
  pub events : List String

abbrev pub no_metrics : Metrics
no_metrics = record {
  pipeline_runs_total = 0;
  pipeline_runs_success = 0;
  pipeline_runs_failed = 0;
  pipeline_runs_cancelled = 0;
  events = [];
}

abbrev pub event_name : PipelineState → String
event_name success = "PipelineCompleted"
event_name failed = "PipelineFailed"
event_name cancelled = "PipelineCancelled"
event_name _ = "PipelineStarted"

-- the metrics and the event of a transition
unfoldable pub track : PipelineState → PipelineState → Metrics → Metrics
track old next m = record {
  pipeline_runs_total =
      if same next running && same old queued
      then m.pipeline_runs_total + 1
      else m.pipeline_runs_total;
  pipeline_runs_success =
      if same next success then m.pipeline_runs_success + 1 else m.pipeline_runs_success;
  pipeline_runs_failed =
      if same next failed then m.pipeline_runs_failed + 1 else m.pipeline_runs_failed;
  pipeline_runs_cancelled =
      if same next cancelled then m.pipeline_runs_cancelled + 1 else m.pipeline_runs_cancelled;
  events = m.events ++ event_name next ∷ [];
}

-- the error of a transition that the table does not have
pub record TransitionError : Type 0 where
  pub from : PipelineState
  pub to : PipelineState

-- `transitionTo`
unfoldable pub transition_to :
    PipelineState → PipelineState → Metrics → Result TransitionError (PipelineState × Metrics)
transition_to next state m =
    if some_of (same next) (valid_transitions state)
    then ok (next, track state next m)
    else err (record { from = state; to = next })
