-- ===== src/Application/Engine.antt =====
-- What the engines of an application share: the registered configurations
-- (platform/application-manager/registry/application-registry.js and application-cache.js), the
-- machine of platform/application-manager/state/deployment-fsm.js with the globals that a transition
-- and an engine write, and the errors. The cache hands out copies, so that a configuration that an
-- engine holds does not see what the machine writes. Files are outside: what saving throws is an
-- argument.
pub mod Steps
pub mod Tracked
use sj_cloud.Prelude.{
  ℕ, String, Bool, List, [], ◌∷◌, ◌++◌, Option, none, some, Dict, lookup, put, Result, ok, err,
}
use sj_cloud.Application.Deployment.{DeploymentState, Platform, DeploymentError, transition_to}
use sj_cloud.Application.Containers.{Containers}
use sj_cloud.Application.Readiness.{Check}
use sj_cloud.Application.Releases.{Ledgers}

-- the fields of a configuration that the engines write beside its status
pub record Source : Type 0 where
  pub image : String
  pub version : String

-- a copy of a configuration, whose status may be missing
pub record Config : Type 0 where
  pub application_id : String
  pub status : Option DeploymentState
  pub source : Source

-- an entry of the history of deployments or of rollbacks
pub record Entry : Type 0 where
  pub app_id : String
  pub run_id : String
  pub status : String

pub record World : Type 0 where
  pub platform : Platform
  pub sources : Dict Source
  pub ledgers : Ledgers
  pub containers : Containers
  pub checks : List Check
  pub deployments : List Entry
  pub rollbacks : List Entry

abbrev pub record_entry : Entry → List Entry → List Entry
record_entry e history = history ++ (e ∷ [])

abbrev pub config_of : String → Option (Option DeploymentState) → Option Source → Option Config
config_of id (some status) (some source) =
    some (record { application_id = id; status = status; source = source })
config_of id _ _ = none

-- `getApplication`
unfoldable pub get_application : String → World → Option Config
get_application id w = config_of id (lookup id w.platform.statuses) (lookup id w.sources)

-- `saveApplication` where nothing is thrown: the copy becomes the registered configuration
unfoldable pub saved : Config → World → World
saved c w = record w {
  platform = record w.platform { statuses = put c.application_id c.status w.platform.statuses };
  sources = put c.application_id c.source w.sources;
}

-- the error that an engine ends with
pub data Failure : Type 0 where
  not_registered : String → Failure
  release_not_found : String → Failure
  release_of_other : String → Failure
  missing_field : String → Failure
  refused : DeploymentError → Failure
  thrown : String → Failure

-- `saveApplication`; its error, where there is one, is thrown before the cache is written
unfoldable pub save_application : Option String → Config → World → World × Option Failure
save_application (some e) c w = (w, some (thrown e))
save_application none c w = (saved c w, none)

-- `status || d`
abbrev pub status_or : DeploymentState → Option DeploymentState → DeploymentState
status_or d none = d
status_or d (some s) = s

-- what an engine holds, its machine's state and its copy of the configuration, with the globals
pub record Engine : Type 0 where
  pub state : DeploymentState
  pub config : Config
  pub world : World

-- the result of a call: what it leaves behind, and its error
abbrev pub Outcome : Type 0
Outcome = Engine × Option Failure

infixl 10 ◌before◌
abbrev pub ◌before◌ : Outcome → (Engine → Outcome) → Outcome
(g, none) before f = f g
(g, some e) before f = (g, some e)

-- `try { … } catch {}`
abbrev pub swallowed : Outcome → Engine
swallowed (g, e) = g

abbrev pub moved : Engine → Result DeploymentError (DeploymentState × Platform) → Outcome
moved g (ok (state, p)) =
    (record g { state = state; world = record g.world { platform = p } }, none)
moved g (err e) = (g, some (refused e))

-- `transitionTo` of the machine
unfoldable pub ask : String → DeploymentState → Engine → Outcome
ask app_id to g = moved g (transition_to app_id to (some g.state) g.world.platform)

-- the engine saves its copy
unfoldable pub save_copy : Option String → Engine → Outcome
save_copy e g = let s = save_application e g.config g.world in (record g { world = s.0 }, s.1)
