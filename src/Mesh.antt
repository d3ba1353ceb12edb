-- ===== src/Mesh.antt =====
-- The service mesh, platform/service-mesh.
pub mod RuntimeState
pub mod Runtime
pub mod Events
pub mod Telemetry
pub mod Breaker
pub mod Backoff
pub mod Balancer
pub mod Router
pub mod Snapshots
pub mod Dependencies
