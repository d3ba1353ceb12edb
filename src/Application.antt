-- ===== src/Application.antt =====
-- platform/application-manager/state: the deployment of an application.
pub mod Containers
pub mod Readiness
pub mod Releases
pub mod Deployment
pub mod Engine
pub mod Deploying
pub mod Reverting
pub mod Scaling
pub mod Paths
pub mod Metering
mod Examples
mod EngineExamples
