-- ===== src/Tenant/Worker.antt =====
-- platform/tenant-manager/queue/worker.js: the worker, which takes the first queued task of every
-- round. A task is one object of the queue: what is written to it is seen where it stands.
pub mod Drain
pub mod Attempts
pub mod Stopped
mod Examples
use sj_cloud.Prelude.{
  ℕ, ◌+◌, String, Bool, true, false, not, List, [], ◌∷◌, ◌++◌, Option, none, some, length,
  if◌then◌else◌, ℤ, sub_ℕ, Result, ok, err,
}
use Prim.Native.String
use sj_cloud.Tenant.Lifecycle.{name}
use sj_cloud.Tenant.Queue.{
  Task, TaskStatus, queued, running, succeeded, failed, Queue, is_queued, get_pending, move_to_dlq,
  should_retry,
}
use sj_cloud.Tenant.Site.{
  Site, Failure, lifecycle, missing_tenant, unsupported_action, thrown, Outside, Outcome,
}
use sj_cloud.Tenant.Actions.{perform}

-- the queue, its metrics, and the tenants
pub record World : Type 0 where
  pub queue : Queue
  pub site : Site
  pub tenant_queue_depth : ℕ
  pub tenant_queue_wait_time : List ℤ

-- what `processTask` writes before it tries the action
abbrev pub begun : ℕ → Task → Task
begun now t = record t { attempts = t.attempts + 1; status = running; started_at = some now }

-- `err.message`, of the machine of a tenant
abbrev pub message : String → Failure → String
message id (lifecycle e) =
    String.◌++◌ "Invalid state transition for tenant " (
      String.◌++◌ id
        (String.◌++◌ ": " (String.◌++◌ (name e.from) (String.◌++◌ " -> " (name e.to)))))
message id missing_tenant = "Cannot read properties of null (reading 'status')"
message id (unsupported_action action) = String.◌++◌ "Unsupported queue action: " action
message id (thrown text) = text

-- what it writes after the action
abbrev pub settled : ℕ → Task → Result Failure (Unit {0}) → Task
settled now t (ok _) = record t { status = succeeded; completed_at = some now }
settled now t (err e) =
    if should_retry t
    then record t { error = some (message t.tenant_id e); status = queued }
    else record t { error = some (message t.tenant_id e); status = failed; completed_at = some now }

-- a task that is an object of the list, the first queued one, with what was written to it
unfoldable pub write_first : Task → List Task → List Task
write_first new [] = []
write_first new (t ∷ ts) =
    let rest = write_first new ts in if is_queued t then new ∷ ts else t ∷ rest

-- the last statement: a task that has failed goes to the dead letters
abbrev pub buried : Task → Queue → Queue
buried t q = elim t.status [ failed ↦ move_to_dlq t q | _ ↦ q ]

-- `processTask` on the first queued task, at the times of its start and of its end
unfoldable pub process_task : Outside → ℕ → ℕ → Task → World → World
process_task o now later t w =
    let (site, result) = perform o t.tenant_id t.action w.site in
    let new = settled later (begun now t) result in
    record w {
      queue = buried new (record w.queue { tasks = write_first new w.queue.tasks });
      site = site;
      tenant_queue_wait_time = w.tenant_queue_wait_time ++ sub_ℕ now t.queued_at ∷ [];
    }

abbrev pub taken : Outside → ℕ → ℕ → List Task → World → World
taken o now later [] w = w
taken o now later (t ∷ ts) w = process_task o now later t w

-- a round of `runLoop`
unfoldable pub run_loop : Outside → ℕ → ℕ → World → World
run_loop o now later w =
    let pending = get_pending w.queue in
    taken o now later pending (record w { tenant_queue_depth = length pending })
