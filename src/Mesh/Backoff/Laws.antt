-- ===== src/Mesh/Backoff/Laws.antt =====
-- The delays of platform/service-mesh/retry/policy.js, compared.
use sj_cloud.Prelude.{ℕ, zero, suc, ◌+◌, ◌^◌, ◌≤◌, ◌<◌, ◌≡◌, ◌≢◌, refl, min, arith}
use native.Mathlib.Nat.{pow-le-pow_right, one-le-pow}
use sj_cloud.Mesh.Backoff.{
  BackoffType, immediate, linear, exponential, exponential_backoff, exponential_jitter, other,
  raw_delay, calculate_backoff,
}

pow-le : (n k : ℕ) → 2 ^ n ≤ 2 ^ (n + k)
pow-le n k = pow-le-pow_right (omega arith) (omega arith)

pow-pos : (n : ℕ) → 1 ≤ 2 ^ n
pow-pos n = one-le-pow n 2 (omega arith)

raw_delay-le :
    (type : BackoffType) (n k base jitter : ℕ)
    → raw_delay type n base jitter ≤ raw_delay type (n + k) base jitter
unfolding raw_delay
raw_delay-le immediate n k base jitter = omega arith
raw_delay-le linear n k base jitter = grind arith
raw_delay-le exponential n k base jitter = grind (arith, pow-le n k)
raw_delay-le exponential_backoff n k base jitter = grind (arith, pow-le n k)
raw_delay-le exponential_jitter n k base jitter = grind (arith, pow-le n k)
raw_delay-le (other name) n k base jitter = grind (arith, pow-le n k)

-- With the same parameters and the same jitter, a later attempt never waits less.
pub calculate_backoff_mono :
    (type : BackoffType) (n k base max_delay jitter : ℕ)
    → calculate_backoff type n base max_delay jitter
      ≤ calculate_backoff type (n + k) base max_delay jitter
unfolding calculate_backoff
calculate_backoff_mono type zero k base max_delay jitter = omega arith
calculate_backoff_mono type (suc n) k base max_delay jitter =
    let later : suc n + k ≡ suc (n + k) = omega arith in
    rw later (omega (arith, raw_delay-le type n k base jitter))

raw_delay-ge :
    (type : BackoffType) (n base jitter : ℕ)
    → type ≢ immediate
    → base ≤ raw_delay type n base jitter
unfolding raw_delay
raw_delay-ge immediate n base jitter h = absurd (h refl)
raw_delay-ge linear n base jitter h = grind arith
raw_delay-ge exponential n base jitter h = grind (arith, pow-pos n)
raw_delay-ge exponential_backoff n base jitter h = grind (arith, pow-pos n)
raw_delay-ge exponential_jitter n base jitter h = grind (arith, pow-pos n)
raw_delay-ge (other name) n base jitter h = grind (arith, pow-pos n)

-- No delay passes the maximum, and from the first attempt on every delay whose type is not
-- `immediate` is at least the smaller of the base and the maximum.
pub calculate_backoff_bounds :
    (type : BackoffType) (n base max_delay jitter : ℕ)
    → (calculate_backoff type n base max_delay jitter ≤ max_delay)
      × (0 < n
          → type ≢ immediate
          → min base max_delay ≤ calculate_backoff type n base max_delay jitter)
unfolding calculate_backoff
calculate_backoff_bounds type zero base max_delay jitter =
    (omega arith, λ h _. absurd (omega arith))
calculate_backoff_bounds type (suc n) base max_delay jitter =
    (omega arith, λ _ slow. omega (arith, raw_delay-ge type n base jitter slow))
