-- ===== src/Mesh/Backoff/Examples.antt =====
-- Tests of the retry policy, and its theorems at concrete inputs.
use sj_cloud.Prelude.{◌≤◌, ◌≡◌, ◌≢◌, ◌<◌, refl, none, some, min}
use sj_cloud.Mesh.Backoff.{
  exponential_backoff, linear, immediate, exponential_jitter, calculate_backoff, backoff_of,
}
use sj_cloud.Mesh.Backoff.Laws.{calculate_backoff_bounds}

delays :
    (backoff_of exponential_backoff 3 none none 0 ≡ 400)
    × (backoff_of exponential_jitter 9 none none 7 ≡ 2000)
    × (backoff_of linear 4 (some 50) (some 120) 0 ≡ 120)
    × (backoff_of linear 0 none none 0 ≡ 0)
unfolding backoff_of calculate_backoff
delays = (refl, refl, refl, refl)

calculate_backoff_bounds_example :
    (calculate_backoff linear 2 100 150 0 ≤ 150)
    × (0 < 2 → linear ≢ immediate → min 100 150 ≤ calculate_backoff linear 2 100 150 0)
calculate_backoff_bounds_example = calculate_backoff_bounds linear 2 100 150 0
