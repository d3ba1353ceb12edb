-- ===== src/Mesh/Router/Outcomes.antt =====
-- What the end of an attempt does: the answer, and the counts of active connections.
use sj_cloud.Prelude.{
  ℕ, ◌-◌, ◌<◌, ◌≡◌, refl, String, arith, ltb, str_eq, str_eq_self, if◌then◌else◌, tally, Bool-cases,
  inl, inr, ◌⊎◌,
}
use sj_cloud.Mesh.Balancer.{Balancer, decrement_connections}
use sj_cloud.Mesh.Balancer.Connections.{tally-decrement}
use sj_cloud.Mesh.Breaker
use sj_cloud.Mesh.Breaker.{Breaker, Globals}
use sj_cloud.Mesh.Router.Requests.{
  Outcome, answered, failed, Failure, http_error, Response, relayed, gateway_failure, MeshState,
}
use sj_cloud.Mesh.Router.Attempt.{
  Flight, done, land, catch_failure, give_up, mentions_timeout, fail, succeed, on_breaker,
}

on_breaker-balancer :
    (f : Breaker → Globals → Breaker × Globals) (id : String) (s : MeshState)
    → (on_breaker f id s).balancer ≡ s.balancer
unfolding on_breaker
on_breaker-balancer f id s = ground arith

-- How often an attempt gives its connection back: a status from 500 on is thrown into the handler
-- of errors, which gives it back once more.
abbrev pub releases : Outcome → ℕ
releases (failed why) = 1
releases (answered status) = if ltb status 500 then 1 else 2

pub balancer-fail : (now : ℕ) (id : String) (s : MeshState) → (fail now id s).balancer ≡ s.balancer
unfolding fail
balancer-fail now id s = on_breaker-balancer (Breaker.record_failure now) id s

balancer-succeed :
    (now : ℕ) (id : String) (s : MeshState) → (succeed now id s).balancer ≡ s.balancer
unfolding succeed
balancer-succeed now id s = on_breaker-balancer (Breaker.record_success now) id s

balancer-catch_failure :
    (now jitter : ℕ) (why : Failure) (f : Flight) (url : String) (s : MeshState)
    → (catch_failure now jitter why f url s).1.balancer ≡ decrement_connections url s.balancer
unfolding catch_failure give_up
balancer-catch_failure now jitter why f url s =
    let s' : MeshState = record s { balancer = decrement_connections url s.balancer } in
    ground (arith, balancer-fail now f.request.service_id s')

-- the balancer after an attempt
release_all : Outcome → String → Balancer → Balancer
release_all (failed why) url lb = decrement_connections url lb
release_all (answered status) url lb =
    let once = decrement_connections url lb in
    if ltb status 500 then once else decrement_connections url once

balancer-land :
    (now jitter : ℕ) (o : Outcome) (f : Flight) (url : String) (s : MeshState)
    → (land now jitter o f url s).1.balancer ≡ release_all o url s.balancer
unfolding land release_all
balancer-land now jitter (failed why) f url s = balancer-catch_failure now jitter why f url s
balancer-land now jitter (answered status) f url s =
    let s' : MeshState = record s { balancer = decrement_connections url s.balancer } in
    ground (
      arith,
      balancer-succeed now f.request.service_id s',
      balancer-catch_failure now jitter (http_error status) f url s',
    )

tally-release_all :
    (o : Outcome) (url other : String) (lb : Balancer)
    → tally other (release_all o url lb).active_connections ≡ (
        if str_eq url other
        then tally url lb.active_connections - releases o
        else tally other lb.active_connections)
unfolding release_all
tally-release_all (failed why) url other lb = tally-decrement url other lb
tally-release_all (answered status) url other lb = ground (
  arith,
  str_eq_self url,
  tally-decrement url other lb,
  tally-decrement url url lb,
  tally-decrement url other (decrement_connections url lb),
)

-- The end of an attempt takes one from the count of its endpoint, or two when the upstream answered
-- with a status from 500 on, as far as the count goes; no other count changes.
pub land-tally :
    (now jitter : ℕ) (o : Outcome) (f : Flight) (url other : String) (s : MeshState)
    → tally other (land now jitter o f url s).1.balancer.active_connections ≡ (
        if str_eq url other
        then tally url s.balancer.active_connections - releases o
        else tally other s.balancer.active_connections)
land-tally now jitter o f url other s =
    rw (balancer-land now jitter o f url s) (tally-release_all o url other s.balancer)

-- An attempt that ends its request answers it with the upstream's status, which is below 500 then,
-- or with a gateway failure at the number of the attempt: with 504 if the message of the failure
-- mentions a timeout, and with 502 if not.
pub land_answer :
    (now jitter : ℕ) (o : Outcome) (f : Flight) (url : String) (s : MeshState) {r : Response}
    → (land now jitter o f url s).0 ≡ done r
    → ((status : ℕ) × (o ≡ answered status) × (status < 500) × (r ≡ relayed status))
      ⊎ ((why : Failure) × (r
            ≡ gateway_failure (if mentions_timeout why then 504 else 502) why f.attempt))
unfolding land catch_failure give_up
land_answer now jitter (failed why) f url s e = inr (why, ground arith)
land_answer now jitter (answered status) f url s e = elim (Bool-cases (ltb status 500)) [
  | inl handled ↦ inl (status, refl, ground arith, ground arith)
  | inr broken ↦ inr (http_error status, ground arith)
]
