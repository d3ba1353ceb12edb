-- ===== src/Mesh/Breaker/Invariant.antt =====
-- What holds of a breaker whatever is called on it, and in which order.
use sj_cloud.Prelude.{
  ℕ, ◌<◌, ◌≤◌, ◌≡◌, All, Option, none, or_else, ◌≢◌, some, List, [], ◌∷◌, arith, lookup,
  lookup-put_self, or_else-pos, String,
}
use sj_cloud.Mesh.Telemetry
use sj_cloud.Mesh.Telemetry.{CircuitState, closed, open_, half_open, state_value, Telemetry}
use sj_cloud.Mesh.Breaker.{
  Breaker, Globals, Policy, new, announce, transition_to, allow_request, record_success,
  record_failure, update_config,
}

-- For two bounds: the limits are positive and within the bounds, successes are counted only while
-- half open, and a closed breaker has fewer failures than the first bound, a half-open one fewer
-- successes than the second.
pub record IsWithin (failures probes : ℕ) (b : Breaker) : Type 0 where
  pub threshold_pos : 0 < b.failure_threshold
  pub threshold_le : b.failure_threshold ≤ failures
  pub probes_pos : 0 < b.half_open_max_requests
  pub probes_le : b.half_open_max_requests ≤ probes
  pub closed_below : b.state ≡ closed → b.failure_count < failures
  pub half_open_below : b.state ≡ half_open → b.success_count < probes
  pub successes_zero : b.state ≢ half_open → b.success_count ≡ 0

-- the bounds are the limits themselves
abbrev pub IsValid : Breaker → Type 0
IsValid b = IsWithin b.failure_threshold b.half_open_max_requests b

-- the gauge of the breaker's service shows its state
abbrev pub IsShown : Breaker → Globals → Type 0
IsShown b g = lookup b.service_id g.telemetry.cb_states ≡ some (state_value b.state)

-- what the caller of a breaker may do, the manager with the policy of a request included
pub data Call : Type 0 where
  allow success failure : Call
  configure : Policy → Call

-- the limits that a policy gives are within the bounds
abbrev pub IsBelow : ℕ → ℕ → Policy → Type 0
IsBelow failures probes p =
    (or_else p.failure_threshold 0 ≤ failures) × (or_else p.half_open_max_requests 0 ≤ probes)

abbrev pub IsAllowed : ℕ → ℕ → ℕ × Call → Type 0
IsAllowed failures probes (now, allow) = Unit
IsAllowed failures probes (now, success) = Unit
IsAllowed failures probes (now, failure) = Unit
IsAllowed failures probes (now, configure p) = IsBelow failures probes p

unfoldable pub step : ℕ × Call → Breaker × Globals → Breaker × Globals
step (now, allow) (b, g) = let (admitted, b', g') = allow_request now b g in (b', g')
step (now, success) (b, g) = record_success now b g
step (now, failure) (b, g) = record_failure now b g
step (now, configure p) (b, g) = (update_config p b, g)

unfoldable pub run : List (ℕ × Call) → Breaker × Globals → Breaker × Globals
run [] s = s
run (c ∷ cs) s = run cs (step c s)

or_else-le : (v : Option ℕ) (d n : ℕ) → or_else v 0 ≤ n → d ≤ n → or_else v d ≤ n
or_else-le none d n h k = k
or_else-le (some m) d n h k = ground (arith, h, k)

new-IsWithin :
    (failures probes now : ℕ) (id : String) (p : Policy) (g : Globals)
    → or_else p.failure_threshold 5 ≤ failures
    → or_else p.half_open_max_requests 2 ≤ probes
    → IsWithin failures probes (new now id p g).0
unfolding new
new-IsWithin failures probes now id p g h k =
    ground (arith, h, k, or_else-pos p.failure_threshold 5, or_else-pos p.half_open_max_requests 2)

new-IsShown :
    (now : ℕ) (id : String) (p : Policy) (g : Globals) → let s = new now id p g in IsShown s.0 s.1
unfolding new Telemetry.record_state
new-IsShown now id p g = lookup-put_self id 0 g.telemetry.cb_states

pub announce-IsShown :
    (now : ℕ) (id : String) (next : CircuitState) (g : Globals)
    → lookup id (announce now id next g).telemetry.cb_states ≡ some (state_value next)
unfolding announce Telemetry.record_state Telemetry.record_trip
announce-IsShown now id closed g = lookup-put_self id 0 g.telemetry.cb_states
announce-IsShown now id half_open g = lookup-put_self id 1 g.telemetry.cb_states
announce-IsShown now id open_ g = lookup-put_self id 2 g.telemetry.cb_states

step-IsWithin :
    (failures probes : ℕ) (c : ℕ × Call) (s : Breaker × Globals)
    → IsAllowed failures probes c
    → IsWithin failures probes s.0
    → IsWithin failures probes (step c s).0
unfolding step allow_request record_success record_failure transition_to update_config
step-IsWithin failures probes (now, allow) s a v = ground arith
step-IsWithin failures probes (now, success) s a v = ground arith
step-IsWithin failures probes (now, failure) s a v = ground arith
step-IsWithin failures probes (now, configure p) (b, g) a v = record {
  threshold_pos = or_else-pos p.failure_threshold b.failure_threshold v.threshold_pos;
  threshold_le = or_else-le p.failure_threshold b.failure_threshold failures a.0 v.threshold_le;
  probes_pos = or_else-pos p.half_open_max_requests b.half_open_max_requests v.probes_pos;
  probes_le = or_else-le p.half_open_max_requests b.half_open_max_requests probes a.1 v.probes_le;
  closed_below = v.closed_below;
  half_open_below = v.half_open_below;
  successes_zero = v.successes_zero;
}

step-IsShown :
    (c : ℕ × Call) (s : Breaker × Globals) → IsShown s.0 s.1 → IsShown (step c s).0 (step c s).1
unfolding step allow_request record_success record_failure transition_to update_config
    Telemetry.record_success Telemetry.record_failure
step-IsShown (now, allow) s v = ground (arith, announce-IsShown now s.0.service_id half_open s.1)
step-IsShown (now, success) s v = ground (
  arith,
  announce-IsShown now s.0.service_id closed
      (record s.1 { telemetry = Telemetry.record_success s.0.service_id s.1.telemetry }),
)
step-IsShown (now, failure) s v = ground (
  arith,
  announce-IsShown now s.0.service_id open_
      (record s.1 { telemetry = Telemetry.record_failure s.0.service_id s.1.telemetry }),
)
step-IsShown (now, configure p) s w = w

run_from-IsSound :
    (failures probes : ℕ) (cs : List (ℕ × Call)) (s : Breaker × Globals)
    → All (IsAllowed failures probes) cs
    → IsWithin failures probes s.0
    → IsShown s.0 s.1
    → IsWithin failures probes (run cs s).0 × IsShown (run cs s).0 (run cs s).1
unfolding run
run_from-IsSound failures probes [] s a v w = (v, w)
run_from-IsSound failures probes (c ∷ cs) s a v w =
    run_from-IsSound failures probes cs (step c s) a.1 (step-IsWithin failures probes c s a.0 v)
      (step-IsShown c s w)

-- A new breaker gets any calls, at any times: requests, successes, failures and new policies, as the
-- manager sets one for every request. Where two bounds are not below the limits that it starts with
-- nor below those that a policy gives: its limits stay positive and within the bounds, it has counted
-- fewer failures than the first bound whenever it is closed, fewer successes than the second
-- whenever it is half open and none otherwise, and the gauge of its service shows its state.
pub run-IsSound :
    (failures probes start : ℕ) (id : String) (p : Policy) (g : Globals) (cs : List (ℕ × Call))
    → or_else p.failure_threshold 5 ≤ failures
    → or_else p.half_open_max_requests 2 ≤ probes
    → All (IsAllowed failures probes) cs
    → let s = run cs (new start id p g) in IsWithin failures probes s.0 × IsShown s.0 s.1
run-IsSound failures probes start id p g cs h k a =
    run_from-IsSound failures probes cs (new start id p g) a
      (new-IsWithin failures probes start id p g h k) (new-IsShown start id p g)
