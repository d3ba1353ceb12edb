-- ===== src/Mesh/Router/Refusals.antt =====
-- What `routeRequest` refuses before its loop, and what it then leaves alone.
use sj_cloud.Prelude.{
  ℕ, ◌+◌, ◌≤◌, ◌≡◌, refl, lookup, put, true, false, none, some, lookup-put_self, tally,
  tally-bump_self,
}
use sj_cloud.Mesh.Telemetry
use sj_cloud.Mesh.Telemetry.{CircuitState, open_, join}
use sj_cloud.Mesh.Breaker.{Breaker, Policy, update_config}
use sj_cloud.Mesh.Breaker.Recovery.{get_breaker_found, allow_request_early}
use sj_cloud.Mesh.Router.Requests.{
  Request, ServiceConfig, service_not_found, access_denied, circuit_open, MeshState,
  breaker_policy_of, allowed_of, source_of, tenant_of,
}
use sj_cloud.Mesh.Router.Attempt.{refused, admit, guard_source, guard_breaker, denies}

-- An unknown service is answered with 404, and only the count of cache misses changes.
pub admit_unknown :
    (now : ℕ) (r : Request) (s : MeshState)
    → lookup r.service_id s.services ≡ none
    → let (a, s') = admit now r s in
      (a ≡ refused (service_not_found r.service_id))
      × (s'.breakers ≡ s.breakers)
      × (s'.balancer ≡ s.balancer)
      × (s'.globals.telemetry.cache_misses ≡ s.globals.telemetry.cache_misses + 1)
unfolding admit guard_source Telemetry.record_cache_miss
admit_unknown now r s e = rw (e, guard_source) (refl, refl, refl, refl)

-- A source that a non-empty list of allowed ones does not name is answered with 403; no breaker is
-- made or asked, and no connection is counted.
pub admit_denied :
    (now : ℕ) (r : Request) (s : MeshState) (c : ServiceConfig)
    → lookup r.service_id s.services ≡ some c
    → denies (allowed_of c) (source_of r) ≡ true
    → let (a, s') = admit now r s in
      (a ≡ refused (access_denied (source_of r)))
      × (s'.breakers ≡ s.breakers)
      × (s'.balancer ≡ s.balancer)
unfolding admit guard_source Telemetry.record_cache_hit
admit_denied now r s c e d = rw (e, guard_source) (rw d (refl, refl, refl))

-- Where the source is allowed, and the breaker of a known service is open and its timeout, under
-- the service's policy, has not passed, the request is answered with 503, the 503 is counted for
-- its tenant, source and service, the breaker stays open, and no connection is counted.
pub admit_open :
    (now : ℕ) (r : Request) (s : MeshState) (c : ServiceConfig) (b : Breaker)
    → lookup r.service_id s.services ≡ some c
    → denies (allowed_of c) (source_of r) ≡ false
    → lookup r.service_id s.breakers ≡ some b
    → b.state ≡ open_
    → now ≤ (update_config (breaker_policy_of c) b).recovery_timeout_ms + b.last_state_transition
    → let (a, s') = admit now r s in
      let key = join (tenant_of r) (join (source_of r) (join r.service_id "503")) in
      (a ≡ refused (circuit_open r.service_id))
      × (s'.balancer ≡ s.balancer)
      × (lookup r.service_id s'.breakers ≡ some (update_config (breaker_policy_of c) b))
      × (tally key s'.globals.telemetry.requests ≡ tally key s.globals.telemetry.requests + 1)
unfolding admit guard_source Telemetry.record_cache_hit Telemetry.record_request update_config
admit_open now r s c b e d f o early =
    let p : Policy = breaker_policy_of c in
    let b' : Breaker = update_config p b in
    rw (e, guard_source)
      (rw d (
        rw (get_breaker_found now r.service_id p s.breakers _ f, guard_breaker)
          (rw (allow_request_early now b' _ o early) (
            refl,
            refl,
            lookup-put_self r.service_id b' (put r.service_id b' s.breakers),
            tally-bump_self _ s.globals.telemetry.requests,
          ))))
