-- ===== src/Application/Scaling/Bounds.antt =====
-- The bounds of the number of replicas.
use sj_cloud.Prelude.{ℕ, ◌≤◌, ◌<◌, ◌≡◌, arith, List, [], ◌∷◌}
use sj_cloud.Application.Scaling.{Usage, target_replicas, evaluate}

-- one evaluation after the other, each of the number that the one before gave
unfoldable pub evaluate_all : List Usage → ℕ → ℕ
evaluate_all [] current = current
evaluate_all (u ∷ rest) current = evaluate_all rest (evaluate u current)

evaluate_within : (u : Usage) (n : ℕ) → (1 ≤ n) × (n ≤ 5) → (1 ≤ evaluate u n) × (evaluate u n ≤ 5)
unfolding evaluate target_replicas
evaluate_within u n h = (ground (arith, h.0, h.1), ground (arith, h.0, h.1))

-- From 1 to 5 replicas, any sequence of measurements leads to a number from 1 to 5 again.
pub evaluate_all_within :
    (us : List Usage) (n : ℕ)
    → (1 ≤ n) × (n ≤ 5)
    → (1 ≤ evaluate_all us n) × (evaluate_all us n ≤ 5)
unfolding evaluate_all
evaluate_all_within [] n h = h
evaluate_all_within (u ∷ us) n h = evaluate_all_within us (evaluate u n) (evaluate_within u n h)

-- With more than 5 replicas and a processor use above 80, the answer is 5: fewer than before.
pub evaluate_shrinks :
    (u : Usage) (n : ℕ) → 80 < u.cpu → 5 < n → (evaluate u n ≡ 5) × (evaluate u n < n)
unfolding evaluate target_replicas
evaluate_shrinks u n h k = (ground (arith, h, k), ground (arith, h, k))
