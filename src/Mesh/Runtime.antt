-- ===== src/Mesh/Runtime.antt =====
-- platform/service-mesh/runtime: the machine of the runtime (state/state-validators.js,
-- state/transition-manager.js, state/state-machine.js, state/state-events.js) and its life
-- (lifecycle.js). The functions that the life calls are arguments: what one does to the globals, and
-- the error that it throws.
pub mod Life
use sj_cloud.Prelude.{
  ℕ, String, Bool, true, false, List, [], ◌∷◌, Option, none, some, some_of, if◌then◌else◌,
}
use sj_cloud.Mesh.RuntimeState.{
  RuntimeState, booting, loading, ready, reloading, degraded, recovering, failed, stopping, stopped,
  same,
}
use sj_cloud.Mesh.Telemetry
use sj_cloud.Mesh.Events
use sj_cloud.Mesh.Breaker.{Globals}

-- `validMap`
abbrev pub valid_map : RuntimeState → List RuntimeState
valid_map booting = loading ∷ failed ∷ []
valid_map loading = ready ∷ failed ∷ []
valid_map ready = reloading ∷ degraded ∷ stopping ∷ failed ∷ []
valid_map reloading = ready ∷ degraded ∷ failed ∷ []
valid_map degraded = recovering ∷ ready ∷ failed ∷ stopping ∷ []
valid_map recovering = ready ∷ degraded ∷ failed ∷ []
valid_map failed = recovering ∷ stopping ∷ stopped ∷ []
valid_map stopping = stopped ∷ []
valid_map stopped = booting ∷ loading ∷ []

abbrev pub is_valid_transition : RuntimeState → RuntimeState → Bool
is_valid_transition from to = some_of (same to) (valid_map from)

-- what a call may throw: the `ValidationError` of a transition, or the error of a function
pub data Failure : Type 0 where
  invalid : RuntimeState → RuntimeState → Failure
  thrown : String → Failure

-- the machine's state with the globals
pub record Runtime : Type 0 where
  pub state : RuntimeState
  pub globals : Globals

-- the result of a call: the runtime after it, and the error
abbrev pub Outcome : Type 0
Outcome = Runtime × Option Failure

infixl 10 ◌before◌
abbrev pub ◌before◌ : Outcome → (Runtime → Outcome) → Outcome
(r, none) before f = f r
(r, some e) before f = (r, some e)

-- `try { … } catch (_) {}`
abbrev pub swallowed : Outcome → Runtime
swallowed (r, e) = r

-- `TransitionManager.transition`
unfoldable pub transition_to : ℕ → RuntimeState → Runtime → Outcome
transition_to now next r =
    if same r.state next
    then (r, none)
    else (if is_valid_transition r.state next
        then (
          record {
            state = next;
            globals = record {
              telemetry = Telemetry.record_state_transition next r.globals.telemetry;
              events =
                  Events.dispatch now (Events.runtime_state_changed r.state next) r.globals.events;
            };
          },
          none,
        )
        else (r, some (invalid r.state next)))

-- a function that the life calls
abbrev pub Work : Type 0
Work = Globals → Globals × Option String

abbrev pub worked : Runtime → Globals × Option String → Outcome
worked r (g, none) = (record r { globals = g }, none)
worked r (g, some e) = (record r { globals = g }, some (thrown e))

abbrev pub call : Option Work → Runtime → Outcome
call none r = (r, none)
call (some f) r = worked r (f r.globals)

-- the `catch` of `startup`
abbrev pub start_failed : ℕ → Outcome → Outcome
start_failed now (r, none) = (r, none)
start_failed now (r, some e) = transition_to now failed r before λ r. (r, some e)

unfoldable pub startup : ℕ → Option Work → Runtime → Outcome
unfolding transition_to
startup now init r = transition_to now loading r before λ r.
    start_failed now (call init r before λ r. transition_to now ready r)

-- the `catch` of `reload`
abbrev pub reload_failed : ℕ → Outcome → Outcome
reload_failed now (r, none) = (r, none)
reload_failed now (r, some e) =
    transition_to now failed (swallowed (transition_to now recovering r)) before λ r. (r, some e)

unfoldable pub reload : ℕ → Option Work → Runtime → Outcome
unfolding transition_to
reload now work r = transition_to now reloading r before λ r.
    reload_failed now (call work r before λ r. transition_to now ready r)

unfoldable pub shutdown : ℕ → Option Work → Runtime → Runtime
unfolding transition_to
shutdown now cleanup r =
    let stopping_r = swallowed (transition_to now stopping r) in
    let cleaned = swallowed (call cleanup stopping_r) in
    swallowed (transition_to now stopped cleaned)
