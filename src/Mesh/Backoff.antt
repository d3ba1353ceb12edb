-- ===== src/Mesh/Backoff.antt =====
-- platform/service-mesh/retry/policy.js. `Math.random() * baseDelayMs` is the argument `jitter`, in
-- whole milliseconds. Powers of two are exact in the model, as they are in doubles.
pub mod Laws
mod Examples
use sj_cloud.Prelude.{
  ℕ, zero, suc, ◌+◌, ◌*◌, ◌^◌, min, Bool, true, false, Option, none, some, String,
}

-- the `type` of a retry policy; `other` is any text that the switch does not name
pub data BackoffType : Type 0 where
  immediate linear exponential exponential_backoff exponential_jitter : BackoffType
  other : String → BackoffType

-- the delay before the clamp, at the attempt after `n` others
raw_delay : BackoffType → ℕ → ℕ → ℕ → ℕ
raw_delay immediate n base jitter = 0
raw_delay linear n base jitter = base * suc n
raw_delay exponential n base jitter = base * 2 ^ n
raw_delay exponential_backoff n base jitter = base * 2 ^ n
raw_delay exponential_jitter n base jitter = base * 2 ^ n + jitter
raw_delay (other name) n base jitter = base * 2 ^ n + jitter

-- `calculateBackoff`; attempts are counted from 1
unfoldable pub calculate_backoff : BackoffType → ℕ → ℕ → ℕ → ℕ → ℕ
unfolding raw_delay
calculate_backoff type zero base max_delay jitter = 0
calculate_backoff type (suc n) base max_delay jitter = min (raw_delay type n base jitter) max_delay

-- the values of the parameters when the caller passes `undefined`
abbrev pub given : Option ℕ → ℕ → ℕ
given none d = d
given (some n) d = n

-- `calculateBackoff` with its default values for the two delays
unfoldable pub backoff_of : BackoffType → ℕ → Option ℕ → Option ℕ → ℕ → ℕ
backoff_of type attempt base max_delay jitter =
    calculate_backoff type attempt (given base 100) (given max_delay 2000) jitter

-- a request method, in upper case
pub data Method : Type 0 where
  get head options post put patch delete : Method
  other_method : String → Method

-- `isEligibleForRetry`, with the policy's `retry_on_non_idempotent`
unfoldable pub is_eligible_for_retry : Method → Bool → Bool
is_eligible_for_retry get on_non_idempotent = true
is_eligible_for_retry head on_non_idempotent = true
is_eligible_for_retry options on_non_idempotent = true
is_eligible_for_retry _ on_non_idempotent = on_non_idempotent
