-- ===== src/Mesh/Balancer/Pool.antt =====
-- Which URL `selectEndpoint` of platform/service-mesh/load-balancer/balancer.js returns.
use sj_cloud.Prelude.{
  ℕ, zero, suc, ◌-◌, ◌%◌, ◌<◌, ◌≡◌, ◌≢◌, ◌⊎◌, refl, sym, subst, String, Dict, Bool, true, false,
  Option, none, some, List, [], ◌∷◌, map, keep, some_of, length, get_elem?, arith, tally, str_eq,
  eq_iff, str_eq_self, if◌then◌else◌, Result, ok, inl, inr,
}
use sj_cloud.Mesh.Balancer.{
  Balancer, Endpoint, plain, weighted, Target, Strategy, Error, least_connections, weighted_random,
  round_robin, unnamed, url_of, target, is_healthy, fewer, dispatch, or_all, candidates,
  select_round_robin, least, select_least_connections, pick, select_weighted, select_from,
  select_endpoint,
}

-- `u` is the URL of a target, or of an endpoint
abbrev pub offers : String → List Target → Bool
offers u = some_of (λ t. str_eq t.url u)

abbrev pub lists : String → List Endpoint → Bool
lists u = some_of (λ e. str_eq (url_of e) u)

abbrev Offered : Result Error String → List Target → Type 0
Offered r pool = (u : String) × (r ≡ ok u) × (offers u pool ≡ true)

get_elem?-offers :
    (pool : List Target) (i : ℕ)
    → i < length pool
    → (t : Target) × (get_elem? pool i ≡ some t) × (offers t.url pool ≡ true)
get_elem?-offers [] i h = elim h [ ]
get_elem?-offers (t ∷ ts) zero h = (t, refl, rw (str_eq_self t.url) refl)
get_elem?-offers (t ∷ ts) (suc i) h =
    let (u, at, offered) = get_elem?-offers ts i (omega arith) in (u, at, ground (arith, offered))

round_robin-Offered :
    (id : String) (t : Target) (ts : List Target) (lb : Balancer)
    → Offered (select_round_robin id (t ∷ ts) lb).0 (t ∷ ts)
unfolding select_round_robin
round_robin-Offered id t ts lb =
    let (u, at, offered) =
      get_elem?-offers (t ∷ ts) (tally id lb.rr_indices % length (t ∷ ts)) (omega arith) in
    (u.url, rw at, offered)

offers-cons :
    (u : String) (t : Target) (ts : List Target) → offers u ts ≡ true → offers u (t ∷ ts) ≡ true
offers-cons u t ts h = ground arith

offers_self : (t : Target) (ts : List Target) → offers t.url (t ∷ ts) ≡ true
offers_self t ts = ground (arith, str_eq_self t.url)

abbrev StartsOrOffers : String → String → List Target → Type 0
StartsOrOffers selected u ts = (u ≡ selected) ⊎ (offers u ts ≡ true)

head_or_tail :
    (u selected : String) (t : Target) (ts : List Target)
    → StartsOrOffers t.url u ts
    → StartsOrOffers selected u (t ∷ ts)
head_or_tail u selected t ts (inl same) =
    inr (subst (λ v. offers v (t ∷ ts) ≡ true) (sym same) (offers_self t ts))
head_or_tail u selected t ts (inr there) = inr (offers-cons u t ts there)

later :
    (u selected : String) (t : Target) (ts : List Target)
    → StartsOrOffers selected u ts
    → StartsOrOffers selected u (t ∷ ts)
later u selected t ts (inl same) = inl same
later u selected t ts (inr there) = inr (offers-cons u t ts there)

-- either branch of a round of the loop
least-branch :
    (conns : Dict ℕ) (t : Target) (ts : List Target) (n : ℕ) (best : Option ℕ) (selected : String)
    → StartsOrOffers t.url (least conns ts (some n) t.url) ts
    → StartsOrOffers selected (least conns ts best selected) ts
    → (better : Bool)
    → StartsOrOffers selected
        (least conns ts (if better then some n else best) (if better then t.url else selected))
        (t ∷ ts)
least-branch conns t ts n best selected new old true = head_or_tail _ selected t ts new
least-branch conns t ts n best selected new old false = later _ selected t ts old

-- the loop returns the URL it started with, or that of a target
least-offers :
    (conns : Dict ℕ) (ts : List Target) (best : Option ℕ) (selected : String)
    → StartsOrOffers selected (least conns ts best selected) ts
unfolding least
least-offers conns [] best selected = inl refl
least-offers conns (t ∷ ts) best selected =
    let n = tally t.url conns in
    least-branch conns t ts n best selected (least-offers conns ts (some n) t.url)
      (least-offers conns ts best selected) (fewer n best)

least-Offered :
    (lb : Balancer) (t : Target) (ts : List Target)
    → Offered (select_least_connections lb (t ∷ ts)) (t ∷ ts)
unfolding select_least_connections
least-Offered lb t ts = (
  least lb.active_connections (t ∷ ts) none t.url,
  refl,
  elim (least-offers lb.active_connections (t ∷ ts) none t.url) [
    | inl same ↦ subst (λ v. offers v (t ∷ ts) ≡ true) (sym same) (offers_self t ts)
    | inr there ↦ there
  ],
)

pick-offers :
    (draw : ℕ) (t : Target) (ts : List Target) (last : String)
    → offers (pick draw (t ∷ ts) last) (t ∷ ts) ≡ true
unfolding pick
pick-offers draw t [] last = ground (arith, str_eq_self t.url)
pick-offers draw t (s ∷ ts) last =
    ground (arith, str_eq_self t.url, pick-offers (draw - t.weight) s ts t.url)

weighted-Offered :
    (draw : ℕ) (t : Target) (ts : List Target) → Offered (select_weighted draw (t ∷ ts)) (t ∷ ts)
unfolding select_weighted
weighted-Offered draw t ts = (pick draw (t ∷ ts) t.url, refl, pick-offers draw t ts t.url)

dispatch-Offered :
    (s : Strategy) (id : String) (draw : ℕ) (t : Target) (ts : List Target) (lb : Balancer)
    → Offered (dispatch s id draw (t ∷ ts) lb).0 (t ∷ ts)
unfolding dispatch
dispatch-Offered least_connections id draw t ts lb = least-Offered lb t ts
dispatch-Offered weighted_random id draw t ts lb = weighted-Offered draw t ts
dispatch-Offered round_robin id draw t ts lb = round_robin-Offered id t ts lb
dispatch-Offered unnamed id draw t ts lb = round_robin-Offered id t ts lb

select_from-Offered :
    (s : Strategy) (id : String) (draw : ℕ) (t : Target) (ts : List Target) (lb : Balancer)
    → Offered (select_from s id draw (t ∷ ts) lb).0 (t ∷ ts)
unfolding select_from
select_from-Offered s id draw t [] lb = (t.url, refl, offers_self t [])
select_from-Offered s id draw t (t' ∷ ts) lb = dispatch-Offered s id draw t (t' ∷ ts) lb

url-target : (e : Endpoint) → (target e).url ≡ url_of e
url-target (plain u) = refl
url-target (weighted u w) = refl

offers-map-target : (u : String) (es : List Endpoint) → offers u (map target es) ≡ lists u es
offers-map-target u [] = refl
offers-map-target u (e ∷ es) = rw (url-target e, offers-map-target u es) refl

-- the endpoints that are kept are listed, and healthy
lists-keep :
    (st : Dict String) (u : String) (es : List Endpoint)
    → lists u (keep (λ e. is_healthy st (url_of e)) es) ≡ true
    → (lists u es ≡ true) × (is_healthy st u ≡ true)
lists-keep st u [] h = cc
lists-keep st u (e ∷ es) h = ground (arith, eq_iff (url_of e) u, lists-keep st u es)

-- where nothing is kept, nothing is healthy
keep-nil :
    (st : Dict String) (es : List Endpoint)
    → keep (λ e. is_healthy st (url_of e)) es ≡ []
    → some_of (λ e. is_healthy st (url_of e)) es ≡ false
keep-nil st [] h = refl
keep-nil st (e ∷ es) h = ground (arith, keep-nil st es)

abbrev kept : Dict String → List Endpoint → List Endpoint
kept st = keep (λ e. is_healthy st (url_of e))

abbrev IsSelected : Result Error String → List Endpoint → Dict String → Type 0
IsSelected r es st =
    (u : String) × (r ≡ ok u)
    × (lists u es ≡ true)
    × (some_of (λ e. is_healthy st (url_of e)) es ≡ true → is_healthy st u ≡ true)

select_kept :
    (id : String) (s : Strategy) (es : List Endpoint) (st : Dict String) (draw : ℕ) (lb : Balancer)
    → es ≢ []
    → (ks : List Endpoint) → kept st es ≡ ks
    → IsSelected (select_from s id draw (map target (or_all ks es)) lb).0 es st
select_kept id s [] st draw lb h ks k = absurd (h refl)
select_kept id s (e ∷ es) st draw lb h [] k =
    let (u, r, there) = select_from-Offered s id draw (target e) (map target es) lb in
    (u, r, rw (← offers-map-target u (e ∷ es)) there, λ some_healthy. cc (keep-nil st (e ∷ es) k))
select_kept id s (e ∷ es) st draw lb h (c ∷ cs) k =
    let (u, r, there) = select_from-Offered s id draw (target c) (map target cs) lb in
    let both = lists-keep st u (e ∷ es) (rw k (rw (← offers-map-target u (c ∷ cs)) there)) in
    (u, r, both.0, λ _. both.1)

-- The selection never fails on a list of endpoints that is not empty, at any strategy, draw or
-- state; the URL that it returns is that of a listed endpoint, and is not unhealthy if any endpoint
-- is not.
pub select_endpoint_sound :
    (id : String) (s : Strategy) (es : List Endpoint) (st : Dict String) (draw : ℕ) (lb : Balancer)
    → es ≢ []
    → (u : String) × ((select_endpoint id s es st draw lb).0 ≡ ok u)
      × (lists u es ≡ true)
      × (some_of (λ e. is_healthy st (url_of e)) es ≡ true → is_healthy st u ≡ true)
unfolding select_endpoint candidates
select_endpoint_sound id s [] st draw lb h = absurd (h refl)
select_endpoint_sound id s (e ∷ es) st draw lb h = select_kept id s (e ∷ es) st draw lb h _ refl
