-- ===== src/Mesh/Router.antt =====
-- platform/service-mesh/routing/engine.js. A request waits twice in each attempt, for the upstream
-- and for the backoff: `admit`, `launch` and `land` are what runs between the waits. The upstream's
-- answers, the clock and the random draws are arguments.
pub mod Requests
pub mod Attempt
pub mod Loop
pub mod Answers
pub mod Refusals
pub mod Outcomes
pub mod Flights
pub mod Interleaving
mod Examples
