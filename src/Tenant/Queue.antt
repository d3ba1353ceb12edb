-- ===== src/Tenant/Queue.antt =====
-- platform/tenant-manager/queue: the queue with its dead letters (queue.js), the dispatcher
-- (dispatcher.js) and the policy of retries (retry.js). A task's result is left out, and the random
-- identifier of a new task is an argument.
use sj_cloud.Prelude.{
  ℕ, ◌-◌, ◌*◌, ◌^◌, String, Bool, true, false, not, List, [], ◌∷◌, ◌++◌, Option, none, some, keep,
  find, ltb, str_eq,
}

pub data TaskStatus : Type 0 where
  queued running succeeded failed : TaskStatus

-- the actions that the worker knows, and any other
pub data TaskAction : Type 0 where
  provision start stop archive restore delete : TaskAction
  rollback : String → TaskAction
  unsupported : String → TaskAction

pub record Task : Type 0 where
  pub id : String
  pub tenant_id : String
  pub action : TaskAction
  pub status : TaskStatus
  pub attempts : ℕ
  pub error : Option String
  pub queued_at : ℕ
  pub started_at : Option ℕ
  pub completed_at : Option ℕ

pub record Queue : Type 0 where
  pub tasks : List Task
  pub dlq : List Task

-- `t.status === 'Queued'`
abbrev pub is_queued : Task → Bool
is_queued t = elim t.status [ queued ↦ true | _ ↦ false ]

unfoldable pub add_task : Task → Queue → Queue
add_task task q = record q { tasks = q.tasks ++ task ∷ [] }

unfoldable pub get_pending : Queue → List Task
get_pending q = keep is_queued q.tasks

-- `a || b` on what two searches find
abbrev pub or_found : Option Task → Option Task → Option Task
or_found none other = other
or_found (some t) other = some t

unfoldable pub get_task : String → Queue → Option Task
get_task task_id q =
    or_found (find (λ t. str_eq t.id task_id) q.tasks) (find (λ t. str_eq t.id task_id) q.dlq)

unfoldable pub get_tasks_by_tenant : String → Queue → List Task
get_tasks_by_tenant tenant_id q =
    keep (λ t. str_eq t.tenant_id tenant_id) q.tasks
    ++ keep (λ t. str_eq t.tenant_id tenant_id) q.dlq

unfoldable pub move_to_dlq : Task → Queue → Queue
move_to_dlq task q = record {
  tasks = keep (λ t. not (str_eq t.id task.id)) q.tasks;
  dlq = q.dlq ++ task ∷ [];
}

unfoldable pub get_all : Queue → List Task
get_all q = q.tasks ++ q.dlq

-- `Dispatcher.dispatch`
unfoldable pub dispatch : ℕ → String → String → TaskAction → Queue → Queue
unfolding add_task
dispatch now id tenant_id action q =
    add_task
      (record {
        id = id;
        tenant_id = tenant_id;
        action = action;
        status = queued;
        attempts = 0;
        error = none;
        queued_at = now;
        started_at = none;
        completed_at = none;
      })
      q

-- the defaults of `RetryPolicy`, which the worker uses
abbrev pub max_attempts : ℕ
max_attempts = 3

abbrev pub initial_delay_ms : ℕ
initial_delay_ms = 1000

unfoldable pub should_retry : Task → Bool
should_retry task = ltb task.attempts max_attempts

-- The worker calls this after an attempt, so that `attempts - 1` does not go below 0.
unfoldable pub get_delay : Task → ℕ
get_delay task = initial_delay_ms * 2 ^ (task.attempts - 1)
