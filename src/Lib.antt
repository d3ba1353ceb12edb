-- ===== src/Lib.antt =====
-- SJ Cloud: a platform that hosts the applications of tenants. This library models the core of its
-- control plane and of its service mesh, the JavaScript under platform/.
--
-- The parts and the files that model them:
--
-- - Mesh, platform/service-mesh. `Mesh/Router` is routing/engine.js: `routeRequest` looks up the service,
--   checks the source, asks the circuit breaker and runs a loop of attempts, each of which asks the
--   load balancer for an endpoint, calls it, and tells the breaker and the telemetry how it went.
--   Requests holds the data and the defaults of context/runtime-context.js; Attempt the guards
--   (`admit`), the start of an attempt (`launch`) and its end (`land`); Loop the loop; Flights several
--   requests at once, whose handlers the event loop interleaves at the points where they wait.
--   `Mesh/Breaker` is circuit-breaker/breaker.js, `Mesh/Balancer` load-balancer/balancer.js with
--   routing/strategies/round-robin.js, `Mesh/Backoff` retry/policy.js, `Mesh/Telemetry`
--   observability/metrics.js, `Mesh/Events` the store of events/, and `Mesh/Runtime` the machine of
--   runtime/state and the life of runtime/lifecycle.js. `Mesh/Snapshots` is the snapshots of cache/
--   with their history, and `Mesh/Dependencies` the dependency graph of compiler/.
-- - Tenant, platform/tenant-manager. `Tenant/Lifecycle` is lifecycle/lifecycle-fsm.js: every machine
--   writes to one set of metrics, and Fleet runs many of them, built in any state. `Tenant/Transactions` is
--   transactions/: steps with compensations. `Tenant/Queue` is queue/queue.js, dispatcher.js and
--   retry.js; `Tenant/Worker` is queue/worker.js, whose actions (`Tenant/Actions`) use the registry
--   (`Tenant/Site`, registry/tenant-registry.js), the machines, and `provision` (`Tenant/Provisioner`,
--   provisioning/provisioner.js), which runs a transaction. `Tenant/Cache` is registry/tenant-cache.js
--   and the summary of registry/tenant-status.js, `Tenant/Drift` is specification/tenant-diff.js, and
--   `Tenant/Policies` is policies/.
-- - Pipeline, platform/pipeline-engine: pipeline-fsm.js (Machine) and the runs that share its metrics
--   (Runs: every machine that is built, of which a run may have several), pipeline-executor.js (Executor), pipeline-context.js (Context) and pipeline-runner.js:
--   Runner has the steps and their hooks, which create releases and run deployments, and Rounds the
--   stages, the whole run, and the cancellation of pipeline-engine.js.
-- - Application, platform/application-manager. `Application/Deployment` is the machine of state/,
--   whose transitions write the registry. `Application/Engine` is what the engines share: the copies of
--   a configuration that the registry's cache hands out, and the machine that an engine holds.
--   `Application/Deploying` is deployment/ (plan, validation, execution, `runDeployment`),
--   `Application/Reverting` rollback/ (`runRollback`), `Application/Releases` the ledgers of releases/,
--   `Application/Containers` runtime/ (start, stop, restart, the supervisor), `Application/Readiness`
--   the loop of health/, and `Application/Scaling` autoscaling/.
-- - Environments, platform/environments: freezes, the deployment window, the environments and the
--   approvals in `Environments`, and `Environments/Promotions`, which runs the deployments above.
-- - Incidents, platform/incidents: the machine and the manager of incidents.
-- - Configuration, platform/shared/config: loads and reloads, with the redacted history
--   (config-history.js, config-manager.js).
-- - Alerts, platform/alerts, with the incidents that it opens, and the score of
--   platform/health-score.
-- - Secrets, platform/secrets: the manager of secrets with its versions and its audit.
-- - Prelude: the helpers that all share, with JavaScript's objects and Maps as association lists in the
--   order of insertion.
--
-- How the code is read: an object's state is a record, a method is a function that takes the state and
-- returns it, with its fields' names in the spelling of this language. The clock, random draws and
-- random identifiers are arguments. An exception is the `err` of a result, or the error beside the
-- state where the state changes before the throw. Numbers are whole and not negative, and a
-- difference of two readings of the clock is an integer. JavaScript's `||` on numbers takes the
-- default at 0 as well (`or_else`).
--
-- What stands outside is an argument: the network gives the outcome of an attempt (`World` of the
-- router), the functions that the runtime's life calls are given, and the files, Docker, psql and the
-- policies of the tenants are the record `Outside` of Tenant/Site. The deployments, the rollbacks and
-- the steps of a pipeline have records of this name too, with the errors of writing files and saving
-- configurations and the answers of health endpoints; the errors of the saves that a transition makes
-- are in the state (`faults` of the platform). What is outside is given anew for every call, and for
-- every round of the worker. `toLowerCase`, regular expressions and checksums
-- are functions that are given.
--
-- Fuel: the loop of the router, `attempts`, recurses on fuel, and `route_request` gives it the number
-- of attempts that the policy allows, of which every retry uses one; that of the readiness check
-- counts down the attempts that its loop has left. No other function needs fuel:
-- the worker's rounds and the runs of events are lists.
--
-- Not modelled: sockets, headers and bodies of HTTP, logs, the text of exported metrics, the steps of
-- provisioning, what other requests do while a deployment, a promotion or a pipeline waits (a call is
-- one step), and the parts of platform/ that are not named above.
mod Prelude
pub mod Mesh
pub mod Tenant
pub mod Pipeline
pub mod Application
pub mod Environments
pub mod Configuration
pub mod Secrets
pub mod Alerts
pub mod Incidents
