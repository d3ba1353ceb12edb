-- ===== src/Mesh/Balancer/Connections.antt =====
-- The counts of active connections, and the strategy that reads them.
use sj_cloud.Prelude.{
  ℕ, ◌-◌, ◌≤◌, ◌≡◌, refl, String, Dict, some, List, [], ◌∷◌, map, All, arith, ok, if◌then◌else◌,
  tally, tally-bump, lookup-put, str_eq_self, eq_iff, str_eq,
}
use sj_cloud.Mesh.Balancer.{
  Balancer, Target, Strategy, Endpoint, least_connections, weighted_random, round_robin, unnamed,
  select_round_robin, select_from, select_endpoint, dispatch, target, candidates,
  increment_connections, decrement_connections, least, select_least_connections,
}

abbrev IsLeast : Dict ℕ → String → List Target → Type 0
IsLeast conns u = All (λ t. tally u conns ≤ tally t.url conns)

least-IsLeast :
    (conns : Dict ℕ) (ts : List Target) (n : ℕ) (selected : String)
    → tally selected conns ≡ n
    → let u = least conns ts (some n) selected in (tally u conns ≤ n) × IsLeast conns u ts
unfolding least
least-IsLeast conns [] n selected e = (omega arith, tt)
least-IsLeast conns (t ∷ ts) n selected e = ground (
  arith,
  least-IsLeast conns ts (tally t.url conns) t.url refl,
  least-IsLeast conns ts n selected e,
)

-- The selected endpoint has no more active connections than any entry of the pool.
pub select_least_connections-IsLeast :
    (lb : Balancer) (t : Target) (ts : List Target)
    → (u : String) × (select_least_connections lb (t ∷ ts) ≡ ok u)
      × All (λ s. tally u lb.active_connections ≤ tally s.url lb.active_connections) (t ∷ ts)
unfolding select_least_connections least
select_least_connections-IsLeast lb t ts =
    let (first, rest) =
      least-IsLeast lb.active_connections ts (tally t.url lb.active_connections) t.url refl in
    (_, refl, (first, rest))

-- what giving back a connection does to the counts: one less at its endpoint, where there is one
pub tally-decrement :
    (endpoint other : String) (lb : Balancer)
    → tally other (decrement_connections endpoint lb).active_connections ≡ (
        if str_eq endpoint other
        then tally endpoint lb.active_connections - 1
        else tally other lb.active_connections)
unfolding decrement_connections
tally-decrement endpoint other lb = ground (
  arith,
  eq_iff endpoint other,
  lookup-put endpoint other (tally endpoint lb.active_connections - 1) lb.active_connections,
)

-- A connection that is counted and given back leaves every count as it was; one that is given back
-- twice takes another request's count away where there was one.
pub decrement_increment :
    (endpoint other : String) (lb : Balancer)
    → let taken = increment_connections endpoint lb in
      let back = decrement_connections endpoint taken in
      let twice = decrement_connections endpoint back in
      (tally other back.active_connections ≡ tally other lb.active_connections)
      × (tally endpoint twice.active_connections ≡ tally endpoint lb.active_connections - 1)
unfolding increment_connections
decrement_increment endpoint other lb =
    let taken = increment_connections endpoint lb in
    let back = decrement_connections endpoint taken in
    ground (
      arith,
      eq_iff endpoint other,
      str_eq_self endpoint,
      tally-bump endpoint other lb.active_connections,
      tally-bump endpoint endpoint lb.active_connections,
      tally-decrement endpoint other taken,
      tally-decrement endpoint endpoint taken,
      tally-decrement endpoint endpoint back,
    )

round_robin-connections :
    (id : String) (pool : List Target) (lb : Balancer)
    → (select_round_robin id pool lb).1.active_connections ≡ lb.active_connections
unfolding select_round_robin
round_robin-connections id [] lb = refl
round_robin-connections id (t ∷ ts) lb = refl

dispatch-connections :
    (st : Strategy) (id : String) (draw : ℕ) (pool : List Target) (lb : Balancer)
    → (dispatch st id draw pool lb).1.active_connections ≡ lb.active_connections
unfolding dispatch
dispatch-connections least_connections id draw pool lb = refl
dispatch-connections weighted_random id draw pool lb = refl
dispatch-connections round_robin id draw pool lb = round_robin-connections id pool lb
dispatch-connections unnamed id draw pool lb = round_robin-connections id pool lb

select_from-connections :
    (st : Strategy) (id : String) (draw : ℕ) (pool : List Target) (lb : Balancer)
    → (select_from st id draw pool lb).1.active_connections ≡ lb.active_connections
unfolding select_from
select_from-connections st id draw [] lb = dispatch-connections st id draw [] lb
select_from-connections st id draw (t ∷ []) lb = refl
select_from-connections st id draw (t ∷ t' ∷ ts) lb =
    dispatch-connections st id draw (t ∷ t' ∷ ts) lb

-- A selection counts no connection by itself.
pub select_endpoint-connections :
    (id : String) (st : Strategy) (es : List Endpoint) (statuses : Dict String) (draw : ℕ)
    (lb : Balancer)
    → (select_endpoint id st es statuses draw lb).1.active_connections ≡ lb.active_connections
unfolding select_endpoint
select_endpoint-connections id st [] statuses draw lb = refl
select_endpoint-connections id st (e ∷ es) statuses draw lb =
    select_from-connections st id draw (map target (candidates statuses (e ∷ es))) lb
