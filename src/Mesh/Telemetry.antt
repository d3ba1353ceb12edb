-- ===== src/Mesh/Telemetry.antt =====
-- `TelemetryRegistry` of platform/service-mesh/observability/metrics.js: the counters that the mesh
-- records. The text that Prometheus scrapes is not modelled.
use Prim.Native.String
use sj_cloud.Prelude.{
  ℕ, ◌+◌, String, Dict, lookup, put, bump, tally, ℤ, pos, ◌+ℤ◌, sub_ℕ, Bool, true, false, Option,
  none, some, List, [], ◌∷◌, ◌++◌, ◌==◌, if◌then◌else◌,
}
use sj_cloud.Mesh.RuntimeState.{RuntimeState, booting}

-- `state` of a circuit breaker: 'Closed', 'Open', 'Half-Open'
pub data CircuitState : Type 0 where
  closed open_ half_open : CircuitState

pub record Telemetry : Type 0 where
  pub requests : Dict ℕ
  pub duration_sum : Dict ℤ
  pub duration_count : Dict ℕ
  pub retries : Dict ℕ
  pub timeouts : Dict ℕ
  pub cb_trips : Dict ℕ
  pub cb_states : Dict ℕ
  pub cb_failures : Dict ℕ
  pub cb_successes : Dict ℕ
  pub cb_recovery_attempts : Dict ℕ
  pub cb_half_open_attempts : Dict ℕ
  pub cb_transitions : Dict ℕ
  pub cb_open_timestamps : Dict ℕ
  pub cb_recovery_times : Dict (List ℤ)
  pub cache_hits : ℕ
  pub cache_misses : ℕ
  pub snapshot_version : ℕ
  pub snapshot_created_at : ℕ
  pub snapshot_reloads : ℕ
  pub snapshot_compile_duration_ms : ℕ
  pub registry_reloads : ℕ
  pub registry_reload_failures : ℕ
  pub active_services_count : ℕ
  pub current_state : RuntimeState
  pub transitions_count : ℕ
  pub start_time : ℕ

unfoldable pub new : ℕ → Telemetry
new now = record {
  requests = [];
  duration_sum = [];
  duration_count = [];
  retries = [];
  timeouts = [];
  cb_trips = [];
  cb_states = [];
  cb_failures = [];
  cb_successes = [];
  cb_recovery_attempts = [];
  cb_half_open_attempts = [];
  cb_transitions = [];
  cb_open_timestamps = [];
  cb_recovery_times = [];
  cache_hits = 0;
  cache_misses = 0;
  snapshot_version = 1;
  snapshot_created_at = now;
  snapshot_reloads = 0;
  snapshot_compile_duration_ms = 0;
  registry_reloads = 0;
  registry_reload_failures = 0;
  active_services_count = 0;
  current_state = booting;
  transitions_count = 0;
  start_time = now;
}

unfoldable pub record_state_transition : RuntimeState → Telemetry → Telemetry
record_state_transition next t = record t {
  current_state = next;
  transitions_count = t.transitions_count + 1;
}

-- `${a}:${b}`
abbrev pub join : String → String → String
join a b = String.◌++◌ a (String.◌++◌ ":" b)

abbrev sum_at : String → Dict ℤ → ℤ
sum_at k m = elim (lookup k m) [ none ↦ pos 0 | some n ↦ n ]

unfoldable pub record_request : String → String → String → String → ℤ → Telemetry → Telemetry
record_request tenant source dest code duration_ms t = record t {
  requests = bump (join tenant (join source (join dest code))) t.requests;
  duration_sum = put key (sum_at key t.duration_sum +ℤ duration_ms) t.duration_sum;
  duration_count = bump key t.duration_count;
}
  where
    key : String
    key = join tenant (join source dest)

unfoldable pub record_retry : String → String → String → Telemetry → Telemetry
record_retry tenant dest type t = record t {
  retries = bump (join tenant (join dest type)) t.retries;
}

unfoldable pub record_timeout : String → String → Telemetry → Telemetry
record_timeout tenant dest t = record t { timeouts = bump (join tenant dest) t.timeouts }

unfoldable pub record_trip : String → Telemetry → Telemetry
record_trip dest t = record t { cb_trips = bump dest t.cb_trips }

unfoldable pub record_failure : String → Telemetry → Telemetry
record_failure dest t = record t { cb_failures = bump dest t.cb_failures }

unfoldable pub record_success : String → Telemetry → Telemetry
record_success dest t = record t { cb_successes = bump dest t.cb_successes }

abbrev pub state_value : CircuitState → ℕ
state_value closed = 0
state_value half_open = 1
state_value open_ = 2

abbrev list_at : String → Dict (List ℤ) → List ℤ
list_at k m = elim (lookup k m) [ none ↦ [] | some l ↦ l ]

-- the recovery time of a breaker that leaves 'Open'; a missing or zero timestamp is falsy
recovered : ℕ → String → Dict ℕ → Dict (List ℤ) → Dict (List ℤ)
recovered now dest opened times =
    let since = tally dest opened in
    if since == 0 then times else put dest (list_at dest times ++ sub_ℕ now since ∷ []) times

was_open : Option ℕ → Bool
was_open none = false
was_open (some v) = v == 2

unfoldable pub record_state : ℕ → String → CircuitState → Telemetry → Telemetry
unfolding recovered was_open
record_state now dest open_ t = record t {
  cb_states = put dest (state_value open_) t.cb_states;
  cb_transitions = bump dest t.cb_transitions;
  cb_open_timestamps = put dest now t.cb_open_timestamps;
}
record_state now dest closed t = record t {
  cb_states = put dest (state_value closed) t.cb_states;
  cb_transitions = bump dest t.cb_transitions;
  cb_recovery_times =
      if was_open (lookup dest t.cb_states)
      then recovered now dest t.cb_open_timestamps t.cb_recovery_times
      else t.cb_recovery_times;
}
record_state now dest half_open t = record t {
  cb_states = put dest (state_value half_open) t.cb_states;
  cb_transitions = bump dest t.cb_transitions;
  cb_recovery_times =
      if was_open (lookup dest t.cb_states)
      then recovered now dest t.cb_open_timestamps t.cb_recovery_times
      else t.cb_recovery_times;
  cb_half_open_attempts = bump dest t.cb_half_open_attempts;
  cb_recovery_attempts = bump dest t.cb_recovery_attempts;
}

unfoldable pub record_cache_hit : Telemetry → Telemetry
record_cache_hit t = record t { cache_hits = t.cache_hits + 1 }

unfoldable pub record_cache_miss : Telemetry → Telemetry
record_cache_miss t = record t { cache_misses = t.cache_misses + 1 }

unfoldable pub set_snapshot_info : ℕ → ℕ → Telemetry → Telemetry
set_snapshot_info version created_at t = record t {
  snapshot_version = version;
  snapshot_created_at = created_at;
}

unfoldable pub record_snapshot_reload : Telemetry → Telemetry
record_snapshot_reload t = record t { snapshot_reloads = t.snapshot_reloads + 1 }

unfoldable pub record_registry_reload : Bool → Telemetry → Telemetry
record_registry_reload true t = record t { registry_reloads = t.registry_reloads + 1 }
record_registry_reload false t = record t {
  registry_reload_failures = t.registry_reload_failures + 1;
}

unfoldable pub set_active_services_count : ℕ → Telemetry → Telemetry
set_active_services_count n t = record t { active_services_count = n }
