-- ===== src/Tenant/Worker/Drain.antt =====
-- When the worker has nothing left to do.
use sj_cloud.Prelude.{
  ℕ, ◌+◌, ◌-◌, ◌*◌, ◌≤◌, ◌<◌, ◌≡◌, refl, Bool, true, not, List, [], ◌∷◌, arith, keep, length,
  if◌then◌else◌, Result, ok, err, str_eq,
}
use sj_cloud.Tenant.Queue.{Task, Queue, is_queued, get_pending, move_to_dlq, should_retry}
use sj_cloud.Tenant.Site.{Failure, Outside}
use sj_cloud.Tenant.Actions.{perform}
use sj_cloud.Tenant.Worker.{
  World, begun, settled, write_first, buried, process_task, taken, run_loop,
}

-- the attempts that a task may still be given
abbrev pub left : Task → ℕ
left t = if is_queued t then 1 + (2 - t.attempts) else 0

abbrev pub budget : List Task → ℕ
budget [] = 0
budget (t ∷ ts) = left t + budget ts

left-settled :
    (now later : ℕ) (t : Task) (r : Result Failure (Unit {0}))
    → is_queued t ≡ true
    → left (settled later (begun now t) r) < left t
unfolding should_retry
left-settled now later t (ok _) h = ground arith
left-settled now later t (err e) h = ground arith

pub first-queued :
    (t : Task) (rest ts : List Task) → keep is_queued ts ≡ t ∷ rest → is_queued t ≡ true
first-queued t rest [] h = ground arith
first-queued t rest (x ∷ ts) h = ground (arith, first-queued t rest ts)

budget-write_first :
    (new t : Task) (ts rest : List Task)
    → keep is_queued ts ≡ t ∷ rest
    → budget (write_first new ts) + left t ≡ budget ts + left new
unfolding write_first
budget-write_first new t [] rest h = ground arith
budget-write_first new t (x ∷ ts) rest h = ground (arith, budget-write_first new t ts rest)

budget-keep-le : (p : Task → Bool) (ts : List Task) → budget (keep p ts) ≤ budget ts
budget-keep-le p [] = omega arith
budget-keep-le p (t ∷ ts) = ground (arith, budget-keep-le p ts)

budget-buried : (t : Task) (q : Queue) → budget (buried t q).tasks ≤ budget q.tasks
unfolding move_to_dlq
budget-buried t q = ground (arith, budget-keep-le (λ x. not (str_eq x.id t.id)) q.tasks)

pending-none-budget : (ts : List Task) → budget ts ≤ 0 → keep is_queued ts ≡ []
pending-none-budget [] h = refl
pending-none-budget (t ∷ ts) h = ground (arith, pending-none-budget ts)

budget-pending-le : (ts : List Task) → budget ts ≤ 3 * length (keep is_queued ts)
budget-pending-le [] = omega arith
budget-pending-le (t ∷ ts) = ground (arith, budget-pending-le ts)

process_task-budget :
    (o : Outside) (now later : ℕ) (t : Task) (rest : List Task) (w : World)
    → get_pending w.queue ≡ t ∷ rest
    → budget (process_task o now later t w).queue.tasks < budget w.queue.tasks
unfolding process_task get_pending
process_task-budget o now later t rest w h =
    let result = (perform o t.tenant_id t.action w.site).1 in
    let new = settled later (begun now t) result in
    let written = write_first new w.queue.tasks in
    ground (
      arith,
      left-settled now later t result (first-queued t rest w.queue.tasks h),
      budget-write_first new t w.queue.tasks rest h,
      budget-buried new (record w.queue { tasks = written }),
    )

taken-budget :
    (o : Outside) (now later : ℕ) (pending : List Task) (w : World)
    → get_pending w.queue ≡ pending
    → budget (taken o now later pending w).queue.tasks ≤ budget w.queue.tasks - 1
unfolding get_pending
taken-budget o now later [] w h = ground (arith, budget-pending-le w.queue.tasks)
taken-budget o now later (t ∷ rest) w h = omega (arith, process_task-budget o now later t rest w h)

run_loop-budget :
    (o : Outside) (now later : ℕ) (w : World)
    → budget (run_loop o now later w).queue.tasks ≤ budget w.queue.tasks - 1
unfolding run_loop get_pending
run_loop-budget o now later w =
    let pending = get_pending w.queue in
    taken-budget o now later pending (record w { tenant_queue_depth = length pending }) refl

-- the rounds of the worker, each with what the calls outside do in it, and at the times of its start
-- and of its end
abbrev pub Round : Type 0
Round = Outside × ℕ × ℕ

unfoldable pub rounds : List Round → World → World
rounds [] w = w
rounds ((o, now, later) ∷ rest) w = rounds rest (run_loop o now later w)

rounds-budget :
    (times : List Round) (w : World)
    → budget (rounds times w).queue.tasks ≤ budget w.queue.tasks - length times
unfolding rounds
rounds-budget [] w = omega arith
rounds-budget ((o, now, later) ∷ times) w =
    omega (arith, run_loop-budget o now later w, rounds-budget times (run_loop o now later w))

-- Three rounds for every queued task leave no task queued, whatever the tasks do and whether they
-- fail, in every round anew, where no task is added in the meantime.
pub rounds-drain :
    (times : List Round) (w : World)
    → 3 * length (get_pending w.queue) ≤ length times
    → get_pending (rounds times w).queue ≡ []
unfolding get_pending
rounds-drain times w h =
    pending-none-budget (rounds times w).queue.tasks
      (omega (arith, rounds-budget times w, budget-pending-le w.queue.tasks, h))
