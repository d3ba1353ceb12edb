-- ===== src/Application/Scaling.antt =====
-- platform/application-manager/autoscaling: scaling-policy.js and metrics-provider.js, with the
-- answer of autoscaler.js. The event and the text of the reason are left out.
pub mod Bounds
use sj_cloud.Prelude.{ℕ, ◌+◌, ◌-◌, min, max, Bool, ◌&&◌, ltb, ◌==◌, if◌then◌else◌}

pub record Usage : Type 0 where
  pub cpu : ℕ
  pub memory : ℕ

-- `ScalingPolicy.evaluate`
unfoldable pub target_replicas : Usage → ℕ → ℕ
target_replicas u current =
    if ltb 80 u.cpu
    then min 5 (current + 1)
    else if ltb u.cpu 20 && ltb 1 current
    then max 1 (current - 1)
    else current

-- `MetricsProvider.getMetrics`
abbrev pub get_metrics : Usage
get_metrics = record { cpu = 45; memory = 60 }

-- `Autoscaler.evaluate`, of what the provider gives
unfoldable pub evaluate : Usage → ℕ → ℕ
evaluate u current =
    let target = target_replicas u current in if target == current then current else target
