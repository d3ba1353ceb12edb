-- ===== src/Tenant/Drift.antt =====
-- platform/tenant-manager/specification/tenant-diff.js: what of a tenant is not as it should be. The
-- texts of the messages are left out.
pub mod Aligned
mod Examples
use sj_cloud.Prelude.{
  Bool, true, false, not, ◌&&◌, ◌||◌, String, List, [], ◌∷◌, ◌++◌, Option, none, some,
  if◌then◌else◌,
}
use sj_cloud.Tenant.Lifecycle.{
  TenantState, active, suspended, updating, restoring, migrating, archived, deleted, same,
}

-- what is found of a tenant
pub record Actual : Type 0 where
  pub workspace_exists : Bool
  pub secrets_exist : Bool
  pub compose_file_exists : Bool
  pub compose_running : Bool
  pub db_exists : Bool
  pub route_exists : Bool
  pub certs_exist : Bool

-- the `type` of a drift
pub data DriftType : Type 0 where
  orphan_workspace orphan_route missing_workspace missing_secrets missing_compose missing_db
        stopped_containers missing_route missing_certs running_but_should_be_suspended
        running_but_should_be_archived :
      DriftType

pub data Severity : Type 0 where
  warning critical high medium : Severity

pub record Drift : Type 0 where
  pub type : DriftType
  pub severity : Severity

-- `if (test) drifts.push(…)`
abbrev pub push_if : Bool → DriftType → Severity → List Drift
push_if true type severity = record { type = type; severity = severity } ∷ []
push_if false type severity = []

-- the statuses in which a tenant has its Compose file and its database
abbrev pub is_deployed : TenantState → Bool
is_deployed s =
    same s active
    || (same s suspended || (same s updating || (same s restoring || same s migrating)))

-- `TenantDiff.compare`, on the status that is desired, if the tenant is registered
unfoldable pub compare : Option TenantState → Actual → List Drift
compare none a =
    push_if a.workspace_exists orphan_workspace warning
    ++ push_if a.route_exists orphan_route warning
compare (some status) a =
    push_if (not (same status deleted) && not a.workspace_exists) missing_workspace critical
    ++ (push_if (not (same status deleted) && not a.secrets_exist) missing_secrets critical
        ++ (push_if (is_deployed status && not a.compose_file_exists) missing_compose critical
            ++ (push_if (is_deployed status && not a.db_exists) missing_db critical
                ++ (push_if (same status active && not a.compose_running) stopped_containers high
                    ++ (push_if (same status active && not a.route_exists) missing_route high
                        ++ (push_if (same status active && not a.certs_exist) missing_certs high
                            ++ (push_if (same status suspended && a.compose_running)
                                  running_but_should_be_suspended medium
                                ++ push_if (same status archived && a.compose_running)
                                    running_but_should_be_archived high)))))))
