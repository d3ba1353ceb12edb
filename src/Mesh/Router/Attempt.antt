-- ===== src/Mesh/Router/Attempt.antt =====
-- The parts of `routeRequest` of platform/service-mesh/routing/engine.js between its waits.
use sj_cloud.Prelude.{
  ℕ, ◌+◌, String, lookup, put, Bool, true, false, not, ◌&&◌, Option, none, some, List, [], ◌∷◌,
  some_of, ltb, str_eq, if◌then◌else◌, Result, ok, err, sub_ℕ, to_text, pos,
}
use text.Mathlib.Text.{find?}
use sj_cloud.Mesh.Telemetry
use sj_cloud.Mesh.Telemetry.{Telemetry}
use sj_cloud.Mesh.Backoff.{backoff_of, is_eligible_for_retry}
use sj_cloud.Mesh.Balancer
use sj_cloud.Mesh.Balancer.{Balancer, select_endpoint, increment_connections, decrement_connections}
use sj_cloud.Mesh.Breaker
use sj_cloud.Mesh.Breaker.{Breaker, Globals, get_breaker, allow_request}
use sj_cloud.Mesh.Router.Requests.{
  Request, ServiceConfig, Failure, read_timeout, connect_timeout, request_timeout, http_error,
  other_error, Outcome, answered, failed, Response, service_not_found, access_denied, circuit_open,
  relayed, gateway_failure, MeshState, retry_of, breaker_policy_of, request_ms_of, allowed_of,
  endpoints_of, max_attempts_of, tenant_of, source_of, type_name,
}

-- a request that was let through: what its handler keeps between the waits
pub record Flight : Type 0 where
  pub request : Request
  pub config : ServiceConfig
  pub start_time : ℕ
  pub attempt : ℕ

pub data Admission : Type 0 where
  refused : Response → Admission
  admitted : Flight → Admission

abbrev with_telemetry : (Telemetry → Telemetry) → MeshState → MeshState
with_telemetry f s = record s { globals = record s.globals { telemetry = f s.globals.telemetry } }

-- the security policy: an empty list of sources allows all
unfoldable pub denies : List String → String → Bool
denies [] source = false
denies (a ∷ rest) source = not (some_of (λ x. str_eq x source) (a ∷ rest))

-- the circuit breaker
unfoldable pub guard_breaker : ℕ → Request → ServiceConfig → MeshState → Admission × MeshState
guard_breaker now r c s =
    let (b, bs, g) =
      get_breaker now r.service_id (some (breaker_policy_of c)) s.breakers s.globals in
    let (allowed, b', g') = allow_request now b g in
    let s' = record s { breakers = put r.service_id b' bs; globals = g' } in
    if allowed
    then (admitted (record { request = r; config = c; start_time = now; attempt = 1 }), s')
    else (
      refused (circuit_open r.service_id),
      with_telemetry
          (Telemetry.record_request (tenant_of r) (source_of r) r.service_id "503" (pos 0)) s',
    )

unfoldable pub guard_source : ℕ → Request → Option ServiceConfig → MeshState → Admission × MeshState
unfolding guard_breaker
guard_source now r none s =
    (refused (service_not_found r.service_id), with_telemetry Telemetry.record_cache_miss s)
guard_source now r (some c) s =
    let s' = with_telemetry Telemetry.record_cache_hit s in
    if denies (allowed_of c) (source_of r)
    then (refused (access_denied (source_of r)), s')
    else guard_breaker now r c s'

-- from the start of `routeRequest` to its loop, `RuntimeCache.getService` included
unfoldable pub admit : ℕ → Request → MeshState → Admission × MeshState
unfolding guard_source
admit now r s = guard_source now r (lookup r.service_id s.services) s

-- a call on the breaker that the handler holds; the manager never drops one
unfoldable pub on_breaker : (Breaker → Globals → Breaker × Globals) → String → MeshState → MeshState
on_breaker f id s = elim (lookup id s.breakers) [
  | none ↦ s
  | some b ↦
      let (b', g') = f b s.globals in record s { breakers = put id b' s.breakers; globals = g' }
]

unfoldable pub succeed : ℕ → String → MeshState → MeshState
unfolding on_breaker
succeed now = on_breaker (Breaker.record_success now)

unfoldable pub fail : ℕ → String → MeshState → MeshState
unfolding on_breaker
fail now = on_breaker (Breaker.record_failure now)

-- a failed selection is answered with 502
pub data Launch : Type 0 where
  rejected : Balancer.Error → Launch
  launched : String → Launch

unfoldable pub launch_at :
    Result Balancer.Error String → ℕ → Flight → MeshState → Launch × MeshState
launch_at (err e) now f s = (rejected e, fail now f.request.service_id s)
launch_at (ok url) now f s =
    (launched url, record s { balancer = increment_connections url s.balancer })

-- The start of an attempt: the load balancer picks an endpoint, with no health states.
unfoldable pub launch : ℕ → ℕ → Flight → MeshState → Launch × MeshState
unfolding launch_at
launch now draw f s =
    let (picked, lb) =
      select_endpoint f.request.service_id f.config.strategy (endpoints_of f.config) [] draw
        s.balancer in
    launch_at picked now f (record s { balancer = lb })

-- `lastError.message.includes('Timeout')`
unfoldable pub mentions_timeout : Failure → Bool
mentions_timeout read_timeout = true
mentions_timeout connect_timeout = true
mentions_timeout request_timeout = true
mentions_timeout (http_error status) = false
mentions_timeout (other_error message) = elim (find? message "Timeout") [
  | none ↦ false
  | some i ↦ true
]

pub data Landing : Type 0 where
  done : Response → Landing
  retry : ℕ → Flight → Landing

unfoldable pub record_outcome : ℕ → Flight → ℕ → Telemetry → Telemetry
record_outcome now f status =
    Telemetry.record_request (tenant_of f.request) (source_of f.request) f.request.service_id
      (to_text status) (sub_ℕ now f.start_time)

-- what follows the loop when no response was sent
unfoldable pub give_up : ℕ → Failure → Flight → MeshState → Landing × MeshState
unfolding record_outcome
give_up now why f s =
    if mentions_timeout why
    then (
      done (gateway_failure 504 why f.attempt),
      with_telemetry (record_outcome now f 504)
          (with_telemetry (Telemetry.record_timeout (tenant_of f.request) f.request.service_id) s),
    )
    else (done (gateway_failure 502 why f.attempt), with_telemetry (record_outcome now f 502) s)

-- `Date.now() - startTime < request_ms`, false where the policy has no such time
unfoldable pub has_budget : ℕ → Flight → Option ℕ → Bool
has_budget now f none = false
has_budget now f (some ms) = ltb now (ms + f.start_time)

unfoldable pub may_retry : ℕ → Flight → Bool
may_retry now f =
    is_eligible_for_retry f.request.method (retry_of f.config).retry_on_non_idempotent
    && has_budget now f (request_ms_of f.config)
    && ltb f.attempt (max_attempts_of f.config)

-- the `catch` of an attempt; it gives the connection back, and counts the failure
unfoldable pub catch_failure : ℕ → ℕ → Failure → Flight → String → MeshState → Landing × MeshState
unfolding give_up
catch_failure now jitter why f url s =
    let s' =
      fail now f.request.service_id
        (record s { balancer = decrement_connections url s.balancer }) in
    let policy = retry_of f.config in
    if may_retry now f
    then (
      retry (backoff_of policy.type f.attempt policy.base_delay_ms policy.max_delay_ms jitter)
          (record f { attempt = f.attempt + 1 }),
      with_telemetry
          (Telemetry.record_retry (tenant_of f.request) f.request.service_id
            (type_name policy.type))
          s',
    )
    else give_up now why f s'

-- the `try` of an attempt after the wait; a status from 500 on is thrown into the `catch`, when the
-- connection has been given back already
unfoldable pub land : ℕ → ℕ → Outcome → Flight → String → MeshState → Landing × MeshState
unfolding catch_failure record_outcome
land now jitter (failed why) f url s = catch_failure now jitter why f url s
land now jitter (answered status) f url s =
    let s' = record s { balancer = decrement_connections url s.balancer } in
    if ltb status 500
    then (
      done (relayed status),
      with_telemetry (record_outcome now f status) (succeed now f.request.service_id s'),
    )
    else catch_failure now jitter (http_error status) f url s'
