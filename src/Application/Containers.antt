-- ===== src/Application/Containers.antt =====
-- platform/application-manager/runtime: runtime-manager.js, runtime-state.js, runtime-supervisor.js
-- and runtime-recovery.js. Docker and the files are outside: what a call learns from them is an
-- argument. The states and the supervisor are the globals that the manager writes.
pub mod Supervised
use sj_cloud.Prelude.{
  ℕ, ◌+◌, String, Bool, true, false, not, ◌&&◌, List, [], ◌∷◌, Option, none, some, Dict, lookup,
  put, remove, if◌then◌else◌, Result, ok, err,
}
use Prim.Native.String.{◌++◌ as join}

pub data RunState : Type 0 where
  running stopped : RunState

-- what the supervisor knows of an application
pub record Monitored : Type 0 where
  pub tenant_id : String
  pub container_name : String

pub record Containers : Type 0 where
  pub states : Dict RunState
  pub monitored_apps : Dict Monitored
  pub runtime_restart_total : ℕ
  pub runtime_recovery_total : ℕ

-- `get` of the states: an application that was never set is stopped
abbrev pub state_or_stopped : Option RunState → RunState
state_or_stopped none = stopped
state_or_stopped (some s) = s

unfoldable pub get_state : String → Containers → RunState
get_state app_id c = state_or_stopped (lookup app_id c.states)

abbrev pub container_of : String → String → String
container_of tenant_id app_id = join "sj-app-" (join tenant_id (join "-" app_id))

-- `start`; `files` is the error of writing the compose file and the route, where there is one.
-- An error of Docker is caught.
unfoldable pub start : String → String → Option String → Containers → Result String Containers
start tenant_id app_id (some e) c = err e
start tenant_id app_id none c = ok (record c {
  states = put app_id running c.states;
  monitored_apps =
      put app_id (record { tenant_id = tenant_id; container_name = container_of tenant_id app_id })
        c.monitored_apps;
})

-- `stop`, which does nothing where the application has no directory
unfoldable pub stop : String → Bool → Containers → Containers
stop app_id false c = c
stop app_id true c = record c {
  states = put app_id stopped c.states;
  monitored_apps = remove app_id c.monitored_apps;
}

-- `restart`
unfoldable pub restart : Containers → Containers
restart c = record c { runtime_restart_total = c.runtime_restart_total + 1 }

abbrev pub wants_running : RunState → Bool
wants_running running = true
wants_running stopped = false

-- the test of `tick`
abbrev pub is_crashed : (String → Bool) → Containers → String × Monitored → Bool
is_crashed is_running c (app_id, info) =
    wants_running (get_state app_id c) && not (is_running info.container_name)

-- `recover`, which throws where the application has no directory; that Docker fails is only logged
abbrev pub recover : Bool → Containers → Containers × Bool
recover exists c = (record c { runtime_recovery_total = c.runtime_recovery_total + 1 }, exists)

-- the loop of `tick`, which ends at the first error; `is_running` is what Docker says of a
-- container, and `exists` whether an application has its directory
unfoldable pub tick_from :
    (String → Bool) → (String → Bool) → Dict Monitored → Containers → Containers
tick_from is_running exists [] c = c
tick_from is_running exists ((app_id, info) ∷ rest) c =
    let recovered = recover (exists app_id) c in
    let on = tick_from is_running exists rest recovered.0 in
    let next = tick_from is_running exists rest c in
    if is_crashed is_running c (app_id, info)
    then (if recovered.1 then on else recovered.0)
    else next

-- `tick`
unfoldable pub tick : (String → Bool) → (String → Bool) → Containers → Containers
tick is_running exists c = tick_from is_running exists c.monitored_apps c
