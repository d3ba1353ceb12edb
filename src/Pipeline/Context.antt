-- ===== src/Pipeline/Context.antt =====
-- platform/pipeline-engine/pipeline-context.js: what a run collects. Times, durations and logs are
-- left out, and of an artifact its identifier is kept.
use sj_cloud.Prelude.{String, List, [], ◌∷◌, ◌++◌, Option, none, some, Dict, lookup, put}
use sj_cloud.Pipeline.Machine.{PipelineState, queued}

pub data StepStatus : Type 0 where
  step_success step_failed step_skipped : StepStatus

pub record StepResult : Type 0 where
  pub name : Option String
  pub status : StepStatus

pub data StageStatus : Type 0 where
  stage_running stage_success : StageStatus

pub record Stage : Type 0 where
  pub status : StageStatus
  pub steps : List StepResult

pub record Context : Type 0 where
  pub env : Dict String
  pub artifacts : List String
  pub stages : Dict Stage
  pub status : PipelineState
  pub error : Option String

abbrev pub new_context : Dict String → Context
new_context env = record { env = env; artifacts = []; stages = []; status = queued; error = none }

unfoldable pub set_env : String → String → Context → Context
set_env key value c = record c { env = put key value c.env }

abbrev pub add_artifact : String → Context → Context
add_artifact a c = record c { artifacts = c.artifacts ++ (a ∷ []) }

unfoldable pub start_stage : String → Context → Context
start_stage name c = record c {
  stages = put name (record { status = stage_running; steps = [] }) c.stages;
}

abbrev pub completed : String → Option Stage → Dict Stage → Dict Stage
completed name none m = m
completed name (some s) m = put name (record s { status = stage_success }) m

unfoldable pub complete_stage : String → Context → Context
complete_stage name c = record c { stages = completed name (lookup name c.stages) c.stages }

abbrev pub with_result : String → StepResult → Option Stage → Dict Stage → Dict Stage
with_result name r none m = m
with_result name r (some s) m = put name (record s { steps = s.steps ++ (r ∷ []) }) m

unfoldable pub add_step_result : String → StepResult → Context → Context
add_step_result name r c = record c { stages = with_result name r (lookup name c.stages) c.stages }
