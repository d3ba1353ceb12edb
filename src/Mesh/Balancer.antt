-- ===== src/Mesh/Balancer.antt =====
-- platform/service-mesh/load-balancer/balancer.js and
-- platform/service-mesh/routing/strategies/round-robin.js.
pub mod Pool
pub mod RoundRobin
pub mod Weighted
pub mod Connections
mod Examples
use sj_cloud.Prelude.{
  ℕ, zero, suc, ◌+◌, ◌-◌, ◌%◌, String, Dict, lookup, put, bump, tally, Bool, true, false, not,
  Option, none, some, List, [], ◌∷◌, map, keep, length, get_elem?, or_else, ltb, leb, ◌==◌, str_eq,
  if◌then◌else◌, Result, ok, err,
}

-- an endpoint is a URL, or an object with a URL and perhaps a weight
pub data Endpoint : Type 0 where
  plain : String → Endpoint
  weighted : String → Option ℕ → Endpoint

pub record Target : Type 0 where
  pub url : String
  pub weight : ℕ

-- `policy.strategy || 'round_robin'`; a text that the switch does not name is `unnamed`
pub data Strategy : Type 0 where
  least_connections weighted_random round_robin unnamed : Strategy

pub data Error : Type 0 where
  no_endpoints empty_pool : String → Error
  type_error : Error

pub record Balancer : Type 0 where
  pub rr_indices : Dict ℕ
  pub active_connections : Dict ℕ

abbrev pub new : Balancer
new = record { rr_indices = []; active_connections = [] }

unfoldable pub increment_connections : String → Balancer → Balancer
increment_connections endpoint lb = record lb {
  active_connections = bump endpoint lb.active_connections;
}

-- a missing or zero count is falsy
unfoldable pub decrement_connections : String → Balancer → Balancer
decrement_connections endpoint lb =
    let conns = tally endpoint lb.active_connections in
    if conns == 0
    then lb
    else record lb { active_connections = put endpoint (conns - 1) lb.active_connections }

abbrev pub url_of : Endpoint → String
url_of (plain u) = u
url_of (weighted u w) = u

abbrev pub unhealthy : Option String → Bool
unhealthy none = false
unhealthy (some s) = str_eq s "Unhealthy"

-- `statuses[url] !== 'Unhealthy'`
abbrev pub is_healthy : Dict String → String → Bool
is_healthy statuses url = not (unhealthy (lookup url statuses))

abbrev or_all {ℓ} : {A : Type ℓ} → List A → List A → List A
or_all [] all = all
or_all (x ∷ xs) all = x ∷ xs

-- the endpoints that are not known to be unhealthy, or all where there is none
unfoldable pub candidates : Dict String → List Endpoint → List Endpoint
candidates statuses endpoints =
    or_all (keep (λ e. is_healthy statuses (url_of e)) endpoints) endpoints

abbrev pub target : Endpoint → Target
target (plain u) = record { url = u; weight = 1 }
target (weighted u w) = record { url = u; weight = or_else w 1 }

-- `RoundRobinStrategy.select`
unfoldable pub url_at : Option Target → Result Error String
url_at none = err type_error
url_at (some t) = ok t.url

unfoldable pub select_round_robin : String → List Target → Balancer → Result Error String × Balancer
unfolding url_at
select_round_robin service_id [] lb = (err (empty_pool service_id), lb)
select_round_robin service_id (t ∷ ts) lb =
    let i = tally service_id lb.rr_indices in
    (
      url_at (get_elem? (t ∷ ts) (i % length (t ∷ ts))),
      record lb { rr_indices = put service_id (i + 1) lb.rr_indices },
    )

-- the loop of `selectLeastConnections`; `none` is `Infinity`
abbrev fewer : ℕ → Option ℕ → Bool
fewer n none = true
fewer n (some m) = ltb n m

unfoldable pub least : Dict ℕ → List Target → Option ℕ → String → String
least conns [] best selected = selected
least conns (t ∷ ts) best selected =
    let n = tally t.url conns in
    let better = fewer n best in
    least conns ts (if better then some n else best) (if better then t.url else selected)

unfoldable pub select_least_connections : Balancer → List Target → Result Error String
select_least_connections lb [] = err type_error
select_least_connections lb (t ∷ ts) = ok (least lb.active_connections (t ∷ ts) none t.url)

unfoldable pub total_weight : List Target → ℕ
total_weight [] = 0
total_weight (t ∷ ts) = t.weight + total_weight ts

-- The loop of `selectWeighted`. `draw` is `Math.random() * totalWeight` rounded up: the weights are
-- whole numbers, so `r <= 0` passes at the same entry. `last` is the URL of the last entry seen.
unfoldable pub pick : ℕ → List Target → String → String
pick draw [] last = last
pick draw (t ∷ ts) last =
    let rest = pick (draw - t.weight) ts t.url in if leb draw t.weight then t.url else rest

unfoldable pub select_weighted : ℕ → List Target → Result Error String
select_weighted draw [] = err type_error
select_weighted draw (t ∷ ts) = ok (pick draw (t ∷ ts) t.url)

dispatch : Strategy → String → ℕ → List Target → Balancer → Result Error String × Balancer
dispatch least_connections service_id draw pool lb = (select_least_connections lb pool, lb)
dispatch weighted_random service_id draw pool lb = (select_weighted draw pool, lb)
dispatch round_robin service_id draw pool lb = select_round_robin service_id pool lb
dispatch unnamed service_id draw pool lb = select_round_robin service_id pool lb

-- a pool of one is not balanced
unfoldable pub select_from :
    Strategy → String → ℕ → List Target → Balancer → Result Error String × Balancer
unfolding dispatch
select_from strategy service_id draw (t ∷ []) lb = (ok t.url, lb)
select_from strategy service_id draw pool lb = dispatch strategy service_id draw pool lb

-- `selectEndpoint`
unfoldable pub select_endpoint :
    String → Strategy → List Endpoint → Dict String → ℕ → Balancer → Result Error String × Balancer
select_endpoint service_id strategy [] statuses draw lb = (err (no_endpoints service_id), lb)
select_endpoint service_id strategy (e ∷ es) statuses draw lb =
    select_from strategy service_id draw (map target (candidates statuses (e ∷ es))) lb
