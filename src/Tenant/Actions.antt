-- ===== src/Tenant/Actions.antt =====
-- platform/tenant-manager/queue/worker.js: what the worker does for each action of a task. The Docker
-- commands whose errors are caught have no effect on the site, and are left out.
use sj_cloud.Prelude.{String, true, false, Option, none, some, ok, err, lookup}
use sj_cloud.Tenant.Lifecycle.{starting, active, suspended, restoring, archived}
use sj_cloud.Tenant.Queue.{
  TaskAction, provision, start, stop, archive, restore, delete, rollback, unsupported,
}
use sj_cloud.Tenant.Site.{
  Tenant, Site, unsupported_action, thrown, Outside, Outcome, ◌and_then◌, throwing, present, shift,
  save_tenant, save_as, delete_tenant,
}
use sj_cloud.Tenant.Provisioner.{provision_tenant}

-- `docker compose start`, and `docker compose up -d` where it fails
abbrev pub compose_error : Outside → String → Option String
compose_error o id = elim (o.command "start" id) [
  | true ↦ none
  | false ↦ elim (o.command "up" id) [ true ↦ none | false ↦ some "Command failed" ]
]

-- `rollbackTo`
abbrev pub version_of : Option Tenant → Site → Outcome Tenant
version_of none s = (s, err (thrown "Version snapshot not found"))
version_of (some t) s = (s, ok t)

-- the body of the `try` of `processTask`
unfoldable pub perform : Outside → String → TaskAction → Site → Outcome Unit
unfolding delete_tenant
perform o id provision s = provision_tenant o id s
perform o id start s = present (lookup id s.tenants) s and_then λ t s.
    shift starting t.status s and_then λ state s. throwing (compose_error o id) s and_then λ _ s.
    save_as o active t s and_then λ _ s. shift active state s and_then λ _ s. (s, ok tt)
perform o id stop s = present (lookup id s.tenants) s and_then λ t s.
    shift suspended t.status s and_then λ _ s. save_as o suspended t s
perform o id archive s = present (lookup id s.tenants) s and_then λ t s.
    shift archived t.status s and_then λ _ s. save_as o archived t s
perform o id restore s = present (lookup id s.tenants) s and_then λ t s.
    shift restoring t.status s and_then λ state s.
    save_as o active t s and_then λ _ s. shift active state s and_then λ _ s. (s, ok tt)
perform o id (rollback version) s = version_of (o.snapshot id version) s and_then λ t s.
    save_tenant o (record t { status = active }) s
perform o id delete s = throwing (o.destroy_error id) s and_then λ _ s.
    throwing (o.workspace_error id) (delete_tenant id s)
perform o id (unsupported action) s = (s, err (unsupported_action action))
