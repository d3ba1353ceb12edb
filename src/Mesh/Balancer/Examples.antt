-- ===== src/Mesh/Balancer/Examples.antt =====
-- Tests of the load balancer, and its theorems at concrete inputs.
use sj_cloud.Prelude.{
  ◌≡◌, refl, String, Dict, true, none, some, List, [], ◌∷◌, ok, err, put, lookup, some_of,
}
use sj_cloud.Mesh.Balancer.{
  Balancer, Endpoint, plain, weighted, Target, round_robin, weighted_random, least_connections,
  no_endpoints, url_of, is_healthy, candidates, select_round_robin, select_least_connections, least,
  select_weighted, pick, select_from, select_endpoint,
}
use sj_cloud.Mesh.Balancer.Pool.{lists, select_endpoint_sound}

abbrev endpoints : List Endpoint
endpoints = plain "http://a" ∷ weighted "http://b" (some 3) ∷ weighted "http://c" none ∷ []

abbrev statuses : Dict String
statuses = ("http://a", "Unhealthy") ∷ ("http://b", "Starting") ∷ []

abbrev a : Target
a = record { url = "http://a"; weight = 1 }

abbrev b : Target
b = record { url = "http://b"; weight = 3 }

abbrev busy : Balancer
busy = record { rr_indices = ("auth", 4) ∷ []; active_connections = ("http://a", 2) ∷ [] }

selections :
    ((select_endpoint "auth" round_robin endpoints statuses 0 busy).0 ≡ ok "http://b")
    × ((select_endpoint "auth" weighted_random endpoints [] 4 busy).0 ≡ ok "http://b")
    × ((select_endpoint "auth" least_connections endpoints [] 0 busy).0 ≡ ok "http://b")
    × ((select_endpoint "auth" round_robin [] [] 0 busy).0 ≡ err (no_endpoints "auth"))
unfolding select_endpoint select_from candidates lookup select_round_robin select_weighted pick
    select_least_connections least put
selections = (refl, refl, refl, refl)

select_endpoint_sound_example :
    (u : String) × ((select_endpoint "auth" round_robin endpoints statuses 0 busy).0 ≡ ok u)
    × (lists u endpoints ≡ true)
    × (some_of (λ e. is_healthy statuses (url_of e)) endpoints ≡ true
        → is_healthy statuses u ≡ true)
select_endpoint_sound_example =
    select_endpoint_sound "auth" round_robin endpoints statuses 0 busy λ e. cc
