-- ===== src/Tenant/Drift/Aligned.antt =====
-- When a tenant has no drift.
use sj_cloud.Prelude.{true, false, [], some, ◌≡◌, ◌≢◌, ◌⊎◌, ◌↔◌, arith}
use sj_cloud.Tenant.Lifecycle.{
  TenantState, creating, provisioning, starting, active, suspended, updating, migrating, restoring,
  archived, failed, deleting, deleted,
}
use sj_cloud.Tenant.Drift.{Actual, compare}

-- A tenant in one of these states stands on its server.
abbrev pub IsStanding : TenantState → Type 0
IsStanding s =
    (s ≡ active) ⊎ ((s ≡ suspended) ⊎ ((s ≡ updating) ⊎ ((s ≡ restoring) ⊎ (s ≡ migrating))))

-- A tenant has its workspace and its secrets unless it is deleted; its database and its Compose file
-- if it is active, suspended, updating, restoring or migrating; if it is active it runs, with routes
-- and certificates; it does not run if it is suspended or archived.
pub record IsAligned (s : TenantState) (a : Actual) : Type 0 where
  pub workspace : s ≢ deleted → a.workspace_exists ≡ true
  pub secrets : s ≢ deleted → a.secrets_exist ≡ true
  pub compose_file : IsStanding s → a.compose_file_exists ≡ true
  pub db : IsStanding s → a.db_exists ≡ true
  pub running : s ≡ active → a.compose_running ≡ true
  pub route : s ≡ active → a.route_exists ≡ true
  pub certs : s ≡ active → a.certs_exist ≡ true
  pub stopped : (s ≡ suspended) ⊎ (s ≡ archived) → a.compose_running ≡ false

-- The comparison of a registered tenant finds no drift exactly where the tenant has what its status
-- asks for (`IsAligned`): a workspace and secrets unless it is deleted; a database and a Compose file
-- if it is active, suspended, updating, restoring or migrating; running containers, a route and
-- certificates if it is active; and no running containers if it is suspended or archived.
pub compare-nil : (s : TenantState) (a : Actual) → (compare (some s) a ≡ []) ↔ IsAligned s a
unfolding compare
compare-nil creating a = ground arith
compare-nil provisioning a = ground arith
compare-nil starting a = ground arith
compare-nil active a = ground arith
compare-nil suspended a = ground arith
compare-nil updating a = ground arith
compare-nil migrating a = ground arith
compare-nil restoring a = ground arith
compare-nil archived a = ground arith
compare-nil failed a = ground arith
compare-nil deleting a = ground arith
compare-nil deleted a = ground arith
