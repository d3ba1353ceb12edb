-- ===== src/Mesh/Breaker/Recovery.antt =====
-- A policy that arrives while a breaker is half open.
use sj_cloud.Prelude.{
  ℕ, ◌+◌, ◌≤◌, ◌≡◌, refl, false, Option, some, arith, if◌then◌else◌, or_else, lookup, lookup-put,
  str_eq, String, Option-cases, inl, inr, put,
}
use sj_cloud.Mesh.Telemetry.{open_, half_open}
use sj_cloud.Mesh.Breaker.{
  Breaker, Breakers, Globals, Policy, new, update_config, allow_request, get_breaker, found,
  configured, given,
}

-- A half-open breaker whose count of successes has reached a number of probes that a policy then
-- lowered to it admits no request and stays as it is, at any time: no call of `allow_request` gets
-- it out of that state.
pub lowered_probes_block :
    (now : ℕ) (b : Breaker) (g : Globals) (p : Policy)
    → b.state ≡ half_open
    → or_else p.half_open_max_requests b.half_open_max_requests ≤ b.success_count
    → allow_request now (update_config p b) g ≡ (false, update_config p b, g)
unfolding allow_request update_config
lowered_probes_block now b g p h l = ground arith

-- `get_breaker` hands out the breaker that it keeps for the service, and leaves all others alone.
pub get_breaker_kept :
    (now : ℕ) (id : String) (p : Option Policy) (bs : Breakers) (g : Globals) (other : String)
    → let (b, bs', g') = get_breaker now id p bs g in
      lookup other bs' ≡ (if str_eq id other then some b else lookup other bs)
unfolding get_breaker
get_breaker_kept now id p bs g other = elim (Option-cases (lookup id bs)) [
  | inl e ↦ rw (e, found) (lookup-put id other (new now id (given p) g).0 bs)
  | inr (b, e) ↦ rw (e, found) (lookup-put id other (configured p b) bs)
]

-- A breaker that the manager has is handed out with the policy applied, and put back.
pub get_breaker_found :
    (now : ℕ) (id : String) (p : Policy) (bs : Breakers) (g : Globals) {b : Breaker}
    → lookup id bs ≡ some b
    → get_breaker now id (some p) bs g ≡ (update_config p b, put id (update_config p b) bs, g)
unfolding get_breaker
get_breaker_found now id p bs g e = rw (e, found) refl

-- Until its timeout has passed, an open breaker admits nothing and does not change.
pub allow_request_early :
    (now : ℕ) (b : Breaker) (g : Globals)
    → b.state ≡ open_
    → now ≤ b.recovery_timeout_ms + b.last_state_transition
    → allow_request now b g ≡ (false, b, g)
unfolding allow_request
allow_request_early now b g o early = ground arith
