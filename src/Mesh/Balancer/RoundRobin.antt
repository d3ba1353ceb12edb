-- ===== src/Mesh/Balancer/RoundRobin.antt =====
-- The order in which the round-robin strategy goes through its pool.
use sj_cloud.Prelude.{
  ℕ, zero, suc, ◌+◌, ◌%◌, ◌≡◌, ◌≢◌, String, List, ◌∷◌, length, get_elem?, arith, tally, lookup-put,
  lookup, eq_iff, lookup-put_self,
}
use sj_cloud.Mesh.Balancer.{Balancer, Target, select_round_robin, url_at}

-- `n` selections from one pool; the result is that of the last, after `n` others
unfoldable pub after_rounds : ℕ → String → List Target → Balancer → Balancer
after_rounds zero id pool lb = lb
after_rounds (suc n) id pool lb = after_rounds n id pool (select_round_robin id pool lb).1

tally-round :
    (id : String) (t : Target) (ts : List Target) (lb : Balancer)
    → tally id (select_round_robin id (t ∷ ts) lb).1.rr_indices ≡ tally id lb.rr_indices + 1
unfolding select_round_robin
tally-round id t ts lb =
    ground (arith, lookup-put_self id (tally id lb.rr_indices + 1) lb.rr_indices)

tally-after_rounds :
    (n : ℕ) (id : String) (t : Target) (ts : List Target) (lb : Balancer)
    → tally id (after_rounds n id (t ∷ ts) lb).rr_indices ≡ tally id lb.rr_indices + n
unfolding after_rounds
tally-after_rounds zero id t ts lb = omega arith
tally-after_rounds (suc n) id t ts lb = omega (
  arith,
  tally-after_rounds n id t ts (select_round_robin id (t ∷ ts) lb).1,
  tally-round id t ts lb,
)

-- After `n` selections from a pool that does not change, the next one returns the entry whose index
-- is the starting index plus `n`, modulo the size of the pool.
pub round_robin_turn :
    (n : ℕ) (id : String) (t : Target) (ts : List Target) (lb : Balancer)
    → let pool = t ∷ ts in
      (select_round_robin id pool (after_rounds n id pool lb)).0
      ≡ url_at (get_elem? pool ((tally id lb.rr_indices + n) % length pool))
unfolding select_round_robin
round_robin_turn n id t ts lb = rw (tally-after_rounds n id t ts lb)

-- Selections for one service do not move the index of another.
pub round_robin_apart :
    (id other : String) (t : Target) (ts : List Target) (lb : Balancer)
    → id ≢ other
    → lookup other (select_round_robin id (t ∷ ts) lb).1.rr_indices ≡ lookup other lb.rr_indices
unfolding select_round_robin
round_robin_apart id other t ts lb h =
    ground (arith, eq_iff id other, lookup-put id other (tally id lb.rr_indices + 1) lb.rr_indices)
