-- ===== src/Mesh/Breaker.antt =====
-- platform/service-mesh/circuit-breaker/breaker.js. A method takes the reading of the clock, the
-- breaker and the global objects that it writes to, the telemetry and the event store.
pub mod Invariant
pub mod Trips
pub mod Recovery
mod Examples
use sj_cloud.Prelude.{
  ℕ, ◌+◌, String, Dict, lookup, put, Bool, true, false, Option, none, some, List, [], ◌∷◌, or_else,
  ltb, leb, if◌then◌else◌,
}
use sj_cloud.Mesh.Telemetry
use sj_cloud.Mesh.Telemetry.{Telemetry, CircuitState, closed, open_, half_open}
use sj_cloud.Mesh.Events
use sj_cloud.Mesh.Events.{Event}

-- `globalMetrics` and the store of `globalEventDispatcher`
pub record Globals : Type 0 where
  pub telemetry : Telemetry
  pub events : List Event

-- a circuit breaker policy; a missing field is `none`
pub record Policy : Type 0 where
  pub failure_threshold : Option ℕ
  pub recovery_timeout_ms : Option ℕ
  pub half_open_max_requests : Option ℕ

pub record Breaker : Type 0 where
  pub service_id : String
  pub failure_threshold : ℕ
  pub recovery_timeout_ms : ℕ
  pub half_open_max_requests : ℕ
  pub state : CircuitState
  pub failure_count : ℕ
  pub success_count : ℕ
  pub last_state_transition : ℕ

-- the constructor, which records the first state
unfoldable pub new : ℕ → String → Policy → Globals → Breaker × Globals
new now service_id config g = (
  record {
    service_id = service_id;
    failure_threshold = or_else config.failure_threshold 5;
    recovery_timeout_ms = or_else config.recovery_timeout_ms 10000;
    half_open_max_requests = or_else config.half_open_max_requests 2;
    state = closed;
    failure_count = 0;
    success_count = 0;
    last_state_transition = now;
  },
  record g { telemetry = Telemetry.record_state now service_id closed g.telemetry },
)

unfoldable pub update_config : Policy → Breaker → Breaker
update_config config b = record b {
  failure_threshold = or_else config.failure_threshold b.failure_threshold;
  recovery_timeout_ms = or_else config.recovery_timeout_ms b.recovery_timeout_ms;
  half_open_max_requests = or_else config.half_open_max_requests b.half_open_max_requests;
}

-- the metrics and the event of a transition
unfoldable pub announce : ℕ → String → CircuitState → Globals → Globals
announce now service_id open_ g = record {
  telemetry =
      Telemetry.record_trip service_id (Telemetry.record_state now service_id open_ g.telemetry);
  events = Events.dispatch now (Events.circuit_opened service_id) g.events;
}
announce now service_id closed g = record {
  telemetry = Telemetry.record_state now service_id closed g.telemetry;
  events = Events.dispatch now (Events.circuit_closed service_id) g.events;
}
announce now service_id half_open g = record {
  telemetry = Telemetry.record_state now service_id half_open g.telemetry;
  events = Events.dispatch now (Events.circuit_half_open service_id) g.events;
}

-- the counters after a transition: 'Closed' forgets the failures too
failures_after : CircuitState → ℕ → ℕ
failures_after closed n = 0
failures_after _ n = n

unfoldable pub transition_to : ℕ → CircuitState → Breaker → Globals → Breaker × Globals
unfolding failures_after
transition_to now next b g = (
  record b {
    state = next;
    last_state_transition = now;
    success_count = 0;
    failure_count = failures_after next b.failure_count;
  },
  announce now b.service_id next g,
)

recover : CircuitState → ℕ → Breaker → Globals → Breaker × Globals
recover open_ now b g =
    if ltb (b.recovery_timeout_ms + b.last_state_transition) now
    then transition_to now half_open b g
    else (b, g)
recover _ now b g = (b, g)

-- `checkRecovery`: `now - last > timeout`, written without a subtraction
unfoldable pub check_recovery : ℕ → Breaker → Globals → Breaker × Globals
unfolding recover
check_recovery now b g = recover b.state now b g

admits : CircuitState → Breaker → Bool
admits open_ b = false
admits half_open b = ltb b.success_count b.half_open_max_requests
admits closed b = true

unfoldable pub allow_request : ℕ → Breaker → Globals → Bool × Breaker × Globals
unfolding check_recovery admits
allow_request now b g = let (b', g') = check_recovery now b g in (admits b'.state b', b', g')

succeed : CircuitState → ℕ → Breaker → Globals → Breaker × Globals
succeed half_open now b g =
    let b' = record b { success_count = b.success_count + 1 } in
    if leb b.half_open_max_requests (b.success_count + 1)
    then transition_to now closed b' g
    else (b', g)
succeed closed now b g = (record b { failure_count = 0 }, g)
succeed open_ now b g = (b, g)

unfoldable pub record_success : ℕ → Breaker → Globals → Breaker × Globals
unfolding succeed
record_success now b g =
    succeed b.state now b
      (record g { telemetry = Telemetry.record_success b.service_id g.telemetry })

fail : CircuitState → ℕ → Breaker → Globals → Breaker × Globals
fail closed now b g =
    if leb b.failure_threshold b.failure_count then transition_to now open_ b g else (b, g)
fail half_open now b g = transition_to now open_ b g
fail open_ now b g = (b, g)

unfoldable pub record_failure : ℕ → Breaker → Globals → Breaker × Globals
unfolding fail
record_failure now b g =
    fail b.state now (record b { failure_count = b.failure_count + 1 })
      (record g { telemetry = Telemetry.record_failure b.service_id g.telemetry })

-- `CircuitBreakerManager`: the breakers by service
abbrev pub Breakers : Type 0
Breakers = Dict Breaker

configured : Option Policy → Breaker → Breaker
configured none b = b
configured (some p) b = update_config p b

abbrev pub no_policy : Policy
no_policy = record {
  failure_threshold = none;
  recovery_timeout_ms = none;
  half_open_max_requests = none;
}

abbrev given : Option Policy → Policy
given none = no_policy
given (some p) = p

create : ℕ → String → Option Policy → Breakers → Globals → Breaker × Breakers × Globals
create now service_id policy bs g =
    let (b, g') = new now service_id (given policy) g in (b, put service_id b bs, g')

found :
    Option Breaker → ℕ → String → Option Policy → Breakers → Globals → Breaker × Breakers × Globals
found none now service_id policy bs g = create now service_id policy bs g
found (some b) now service_id policy bs g =
    let b' = configured policy b in (b', put service_id b' bs, g)

-- `getBreaker`
unfoldable pub get_breaker :
    ℕ → String → Option Policy → Breakers → Globals → Breaker × Breakers × Globals
unfolding found create configured
get_breaker now service_id policy bs g = found (lookup service_id bs) now service_id policy bs g
