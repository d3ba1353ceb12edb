-- ===== src/Mesh/Breaker/Trips.antt =====
-- When a breaker opens and closes, and what an open one lets through.
use sj_cloud.Prelude.{
  ℕ, zero, suc, ◌+◌, ◌<◌, ◌≡◌, ◌∙◌, false, arith, ltb, leb, if◌then◌else◌, leb→le, Bool-cases, inl,
  inr,
}
use sj_cloud.Mesh.Telemetry.{closed, open_, half_open}
use sj_cloud.Mesh.Breaker.{
  Breaker, Globals, transition_to, allow_request, record_success, record_failure,
}
use sj_cloud.Mesh.Breaker.Invariant.{IsValid}

-- `n` failures in a row, at times given by `clock`
unfoldable pub fail_times : ℕ → (ℕ → ℕ) → Breaker → Globals → Breaker × Globals
fail_times zero clock b g = (b, g)
fail_times (suc n) clock b g =
    let (b', g') = record_failure (clock n) b g in fail_times n clock b' g'

unfoldable pub succeed_times : ℕ → (ℕ → ℕ) → Breaker → Globals → Breaker × Globals
succeed_times zero clock b g = (b, g)
succeed_times (suc n) clock b g =
    let (b', g') = record_success (clock n) b g in succeed_times n clock b' g'

open_failure :
    (now : ℕ) (b : Breaker) (g : Globals)
    → b.state ≡ open_
    → (record_failure now b g).0.state ≡ open_
unfolding record_failure
open_failure now b g o = ground arith

fail_times_open :
    (n : ℕ) (clock : ℕ → ℕ) (b : Breaker) (g : Globals)
    → b.state ≡ open_
    → (fail_times n clock b g).0.state ≡ open_
unfolding fail_times
fail_times_open zero clock b g o = o
fail_times_open (suc n) clock b g o = fail_times_open n clock _ _ (open_failure (clock n) b g o)

-- one failure of a closed breaker: one below the threshold it stays closed
closed_failure :
    (now : ℕ) (b : Breaker) (g : Globals)
    → b.state ≡ closed
    → let b' = (record_failure now b g).0 in
      (b'.state ≡ (if leb b.failure_threshold (b.failure_count + 1) then open_ else closed))
      × (b'.failure_count ≡ b.failure_count + 1)
      × (b'.failure_threshold ≡ b.failure_threshold)
unfolding record_failure transition_to
closed_failure now b g c = ground arith

-- A closed breaker whose count of failures is below its threshold stays closed through `n` failures
-- in a row as long as the count stays below it, and is open as soon as the count reaches it.
pub fail_times_state :
    (n : ℕ) (clock : ℕ → ℕ) (b : Breaker) (g : Globals)
    → b.state ≡ closed
    → b.failure_count < b.failure_threshold
    → (fail_times n clock b g).0.state
      ≡ (if leb b.failure_threshold (b.failure_count + n) then open_ else closed)
unfolding fail_times
fail_times_state zero clock b g c l = ground arith
fail_times_state (suc n) clock b g c l =
    let (state, counted, kept) = closed_failure (clock n) b g c in
    let (b', g') = record_failure (clock n) b g in
    elim (Bool-cases (leb b.failure_threshold (b.failure_count + 1))) [
      | inl trips ↦
          fail_times_open n clock b' g' (rw trips at state) ∙ ground (arith, leb→le _ _ trips)
      | inr stays ↦
          fail_times_state n clock b' g' (rw stays at state) (ground (arith, counted, kept))
          ∙ ground (arith, counted, kept)
    ]

-- A failure of a half-open breaker opens it again at once, and its timeout starts anew.
pub half_open_failure :
    (now : ℕ) (b : Breaker) (g : Globals)
    → b.state ≡ half_open
    → let b' = (record_failure now b g).0 in
      (b'.state ≡ open_) × (b'.success_count ≡ 0) × (b'.last_state_transition ≡ now)
unfolding record_failure transition_to
half_open_failure now b g h = ground arith

-- A valid open breaker admits a request exactly when its timeout has passed, and then it is half
-- open; until then nothing changes.
pub open_admits_after_timeout :
    (now : ℕ) (b : Breaker) (g : Globals)
    → IsValid b
    → b.state ≡ open_
    → let (admitted, b', g') = allow_request now b g in
      let due = ltb (b.recovery_timeout_ms + b.last_state_transition) now in
      (admitted ≡ due)
      × (b'.state ≡ (if due then half_open else open_))
      × (due ≡ false → (b' ≡ b) × (g' ≡ g))
unfolding allow_request transition_to
open_admits_after_timeout now b g v o = ground arith

-- A success of a closed breaker forgets its failures.
pub closed_success :
    (now : ℕ) (b : Breaker) (g : Globals)
    → b.state ≡ closed
    → ((record_success now b g).0.state ≡ closed) × ((record_success now b g).0.failure_count ≡ 0)
unfolding record_success
closed_success now b g c = ground arith

half_open_success :
    (now : ℕ) (b : Breaker) (g : Globals)
    → b.state ≡ half_open
    → let b' = (record_success now b g).0 in
      (b'.state
        ≡ (if leb b.half_open_max_requests (b.success_count + 1) then closed else half_open))
      × (leb b.half_open_max_requests (b.success_count + 1) ≡ false
          → b'.success_count ≡ b.success_count + 1)
      × (b'.half_open_max_requests ≡ b.half_open_max_requests)
unfolding record_success transition_to
half_open_success now b g c = ground arith

succeed_times_closed :
    (n : ℕ) (clock : ℕ → ℕ) (b : Breaker) (g : Globals)
    → b.state ≡ closed
    → (succeed_times n clock b g).0.state ≡ closed
unfolding succeed_times
succeed_times_closed zero clock b g c = c
succeed_times_closed (suc n) clock b g c =
    succeed_times_closed n clock _ _ (closed_success (clock n) b g c).0

-- A half-open breaker whose count of successes is below the number of probes that it is configured
-- for closes with the last of them, and not before.
pub succeed_times_state :
    (n : ℕ) (clock : ℕ → ℕ) (b : Breaker) (g : Globals)
    → b.state ≡ half_open
    → b.success_count < b.half_open_max_requests
    → (succeed_times n clock b g).0.state
      ≡ (if leb b.half_open_max_requests (b.success_count + n) then closed else half_open)
unfolding succeed_times
succeed_times_state zero clock b g c l = ground arith
succeed_times_state (suc n) clock b g c l =
    let (state, counted, kept) = half_open_success (clock n) b g c in
    let (b', g') = record_success (clock n) b g in
    elim (Bool-cases (leb b.half_open_max_requests (b.success_count + 1))) [
      | inl closes ↦
          succeed_times_closed n clock b' g' (rw closes at state)
          ∙ ground (arith, leb→le _ _ closes)
      | inr stays ↦
          succeed_times_state n clock b' g' (rw stays at state)
            (ground (arith, counted stays, kept))
          ∙ ground (arith, counted stays, kept)
    ]
