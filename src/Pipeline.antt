-- ===== src/Pipeline.antt =====
-- platform/pipeline-engine: the runs of pipelines.
pub mod Machine
pub mod Runs
pub mod Executor
pub mod Retries
pub mod Context
pub mod Runner
pub mod Rounds
pub mod Ends
pub mod Stops
pub mod Metering
pub mod Delivery
mod Examples
mod RunExamples
