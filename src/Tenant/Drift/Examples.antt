-- ===== src/Tenant/Drift/Examples.antt =====
-- The comparison at concrete inputs.
use sj_cloud.Prelude.{true, false, [], ◌≡◌, ◌↔◌, some}
use sj_cloud.Tenant.Lifecycle.{suspended}
use sj_cloud.Tenant.Drift.{Actual, compare}
use sj_cloud.Tenant.Drift.Aligned.{IsAligned, compare-nil}

abbrev actual : Actual
actual = record {
  workspace_exists = true;
  secrets_exist = true;
  compose_file_exists = true;
  compose_running = false;
  db_exists = true;
  route_exists = false;
  certs_exist = false;
}

compare-nil_example : (compare (some suspended) actual ≡ []) ↔ IsAligned suspended actual
compare-nil_example = compare-nil suspended actual
