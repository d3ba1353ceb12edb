-- ===== src/Application/Readiness.antt =====
-- platform/application-manager/health: health-manager.js, health-policy.js and health-history.js.
-- What the endpoint answers to an attempt is an argument; delays are left out.
pub mod Limit
use sj_cloud.Prelude.{
  ℕ, zero, suc, ◌+◌, ◌*◌, String, Bool, true, false, List, [], ◌∷◌, ◌++◌, Option, or_else,
  if◌then◌else◌, leb,
}

-- the options that a configuration may leave out
pub record Options : Type 0 where
  pub initial_delay : Option ℕ
  pub interval : Option ℕ
  pub threshold : Option ℕ

-- `HealthPolicy`
pub record HealthPolicy : Type 0 where
  pub initial_delay : ℕ
  pub interval : ℕ
  pub threshold : ℕ

unfoldable pub health_policy : Options → HealthPolicy
health_policy o = record {
  initial_delay = or_else o.initial_delay 2;
  interval = or_else o.interval 5;
  threshold = or_else o.threshold 3;
}

abbrev pub is_failure_limit_reached : HealthPolicy → ℕ → Bool
is_failure_limit_reached policy failures = leb policy.threshold failures

-- an entry of the history
pub record Check : Type 0 where
  pub app_id : String
  pub healthy : Bool
  pub attempt : ℕ

abbrev pub record_check : Check → List Check → List Check
record_check c history = history ++ (c ∷ [])

-- the loop: `left` attempts remain after those that are made
unfoldable pub attempts : (ℕ → Bool) → String → ℕ → ℕ → List Check → Bool × List Check
attempts answers app_id zero made history = (false, history)
attempts answers app_id (suc left) made history =
    let attempt = made + 1 in
    let healthy = answers attempt in
    let written =
      record_check (record { app_id = app_id; healthy = healthy; attempt = attempt }) history in
    let again = attempts answers app_id left attempt written in
    if healthy then (true, written) else again

-- `verifyReadiness`; `false` is the `HealthError`
unfoldable pub verify_readiness : (ℕ → Bool) → String → Options → List Check → Bool × List Check
verify_readiness answers app_id o history =
    attempts answers app_id ((health_policy o).threshold * 2) 0 history
