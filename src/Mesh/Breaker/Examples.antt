-- ===== src/Mesh/Breaker/Examples.antt =====
-- Tests of the circuit breaker, and its theorems at concrete inputs.
use sj_cloud.Prelude.{ℕ, ◌≡◌, refl, none, some, List, [], ◌∷◌, arith}
use sj_cloud.Mesh.Telemetry
use sj_cloud.Mesh.Telemetry.{closed, open_, half_open}
use sj_cloud.Mesh.Breaker.{
  Breaker, Globals, Policy, new, transition_to, allow_request, record_failure, record_success,
}
use sj_cloud.Mesh.Breaker.Invariant.{
  IsValid, IsWithin, IsShown, Call, allow, success, failure, configure, step, run, run-IsSound,
}
use sj_cloud.Mesh.Breaker.Trips.{fail_times, fail_times_state}

abbrev globals : Globals
unfolding Telemetry.new
globals = record { telemetry = Telemetry.new 0; events = [] }

abbrev policy : Policy
policy = record {
  failure_threshold = some 2;
  recovery_timeout_ms = some 100;
  half_open_max_requests = none;
}

abbrev fresh : Breaker
fresh = record {
  service_id = "auth";
  failure_threshold = 2;
  recovery_timeout_ms = 100;
  half_open_max_requests = 2;
  state = closed;
  failure_count = 0;
  success_count = 0;
  last_state_transition = 10;
}

abbrev tripped : Breaker
tripped = record fresh { state = open_; failure_count = 2; last_state_transition = 30 }

abbrev probing : Breaker
probing = record fresh { state = half_open; success_count = 1 }

-- Two failures open it, the timeout makes it half open, and two successes close it.
abbrev life : List (ℕ × Call)
life =
    (20, failure)
    ∷ (30, failure)
    ∷ (100, allow)
    ∷ (140, allow)
    ∷ (150, success)
    ∷ (160, success)
    ∷ []

life_closes : (run life (fresh, globals)).0 ≡ record fresh { last_state_transition = 160 }
unfolding run step allow_request record_failure record_success transition_to
life_closes = refl

new-fresh : (new 10 "auth" policy globals).0 ≡ fresh
unfolding new
new-fresh = refl

-- a policy that allows one failure comes while it is half open
abbrev lowered : List (ℕ × Call)
lowered =
    (20, failure)
    ∷ (30, failure)
    ∷ (100, allow)
    ∷ (140, allow)
    ∷ (145, configure (record policy { failure_threshold = some 1 }))
    ∷ (150, success)
    ∷ (160, success)
    ∷ []

run-IsSound_example :
    let s = run lowered (new 10 "auth" policy globals) in IsWithin 2 2 s.0 × IsShown s.0 s.1
run-IsSound_example =
    run-IsSound 2 2 10 "auth" policy globals lowered (omega arith) (omega arith)
      (tt, (tt, (tt, (tt, ((omega arith, omega arith), (tt, (tt, tt)))))))

fail_times_state_example : (fail_times 2 (λ n. n) fresh globals).0.state ≡ open_
fail_times_state_example = fail_times_state 2 (λ n. n) fresh globals refl (omega arith)

tripped-IsValid : IsValid tripped
tripped-IsValid = ground arith

abbrev one_probe : Policy
one_probe = record {
  failure_threshold = none;
  recovery_timeout_ms = none;
  half_open_max_requests = some 1;
}
