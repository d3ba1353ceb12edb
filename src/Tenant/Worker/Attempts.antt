-- ===== src/Tenant/Worker/Attempts.antt =====
-- How often a task is tried, and where it is kept.
use sj_cloud.Prelude.{
  ℕ, ◌≤◌, ◌<◌, ◌≡◌, refl, ◌≢◌, String, Bool, true, not, List, [], ◌∷◌, arith, All, All-append, sym,
  keep, length, subst, none, Result, ok, err, ◌⊎◌, inl, inr, str_eq, str_eq_self, Bool-cases,
}
use sj_cloud.Tenant.Queue
use sj_cloud.Tenant.Queue.{
  Task, TaskAction, TaskStatus, queued, running, succeeded, failed, Queue, is_queued, get_pending,
  move_to_dlq, add_task, should_retry, max_attempts,
}
use sj_cloud.Tenant.Site.{Failure, Outside}
use sj_cloud.Tenant.Actions.{perform}
use sj_cloud.Tenant.Worker.Drain.{first-queued}
use sj_cloud.Tenant.Worker.{
  World, begun, settled, write_first, buried, process_task, taken, run_loop,
}

-- a task of the queue between the rounds: it waits and may be tried again, or it has succeeded
abbrev pub IsKept : Task → Type 0
IsKept t =
    ((t.status ≡ queued) × (t.attempts < max_attempts))
    ⊎ ((t.status ≡ succeeded) × (t.attempts ≤ max_attempts))

-- a dead letter: it has failed at its last attempt, and has the error
abbrev pub IsDead : Task → Type 0
IsDead t = (t.status ≡ failed) × (t.attempts ≡ max_attempts) × (t.error ≢ none)

abbrev pub IsSound : Queue → Type 0
IsSound q = All IsKept q.tasks × All IsDead q.dlq

-- what happens to a queue: a task is dispatched, or the worker makes a round, with what the calls
-- outside do in this round
pub data Event : Type 0 where
  dispatched : ℕ → String → String → TaskAction → Event
  round : Outside → ℕ → ℕ → Event

unfoldable pub happen : Event → World → World
happen (dispatched now id tenant_id action) w = record w {
  queue = Queue.dispatch now id tenant_id action w.queue;
}
happen (round o now later) w = run_loop o now later w

unfoldable pub happen_all : List Event → World → World
happen_all [] w = w
happen_all (e ∷ es) w = happen_all es (happen e w)

module _ {ℓ} (P : Task → Type ℓ) where
  All-write_first : (new : Task) (ts : List Task) → P new → All P ts → All P (write_first new ts)
  unfolding write_first
  All-write_first new [] p h = h
  All-write_first new (t ∷ ts) p h = elim (Bool-cases (is_queued t)) [
    | inl e ↦ rw e (p, h.1)
    | inr e ↦ rw e (h.0, All-write_first new ts p h.1)
  ]

  All-keep : (p : Task → Bool) (ts : List Task) → All P ts → All P (keep p ts)
  All-keep p [] h = h
  All-keep p (t ∷ ts) h = elim (Bool-cases (p t)) [
    | inl e ↦ rw e (h.0, All-keep p ts h.1)
    | inr e ↦ rw e (All-keep p ts h.1)
  ]

  All-buried :
      (new : Task) (ts : List Task)
      → All P ts
      → All P (keep (λ t. not (str_eq t.id new.id)) (write_first new ts))
  unfolding write_first
  All-buried new [] h = h
  All-buried new (t ∷ ts) h = elim (Bool-cases (is_queued t)) [
    | inl e ↦ rw (e, str_eq_self new.id) (All-keep (λ t. not (str_eq t.id new.id)) ts h.1)
    | inr e ↦ elim (Bool-cases (str_eq t.id new.id)) [
      | inl k ↦ rw (e, k) (All-buried new ts h.1)
      | inr k ↦ rw (e, k) (h.0, All-buried new ts h.1)
    ]
  ]

  All-first : (t : Task) (rest ts : List Task) → keep is_queued ts ≡ t ∷ rest → All P ts → P t
  All-first t rest [] e h = ground arith
  All-first t rest (x ∷ ts) e h = elim (Bool-cases (is_queued x)) [
    | inl q ↦ let same : x ≡ t = ground arith in subst P same h.0
    | inr q ↦ All-first t rest ts (ground arith) h.1
  ]

waiting-lt : (t : Task) → is_queued t ≡ true → IsKept t → t.attempts < max_attempts
waiting-lt t q (inl k) = k.1
waiting-lt t q (inr k) = ground arith

settled-IsKept :
    (now later : ℕ) (t : Task) (r : Result Failure (Unit {0}))
    → t.attempts < max_attempts
    → let new = settled later (begun now t) r in IsKept new ⊎ IsDead new
unfolding should_retry
settled-IsKept now later t (ok _) h = inl (inr (refl, omega arith))
settled-IsKept now later t (err e) h = elim (Bool-cases (should_retry (begun now t))) [
  | inl k ↦ rw k (inl (inl (refl, ground arith)))
  | inr k ↦ rw k (inr (refl, ground arith, ground arith))
]

buried-kept : (t : Task) (q : Queue) → IsKept t → buried t q ≡ q
buried-kept t q (inl k) = rw k.0 refl
buried-kept t q (inr k) = rw k.0 refl

buried-dead : (t : Task) (q : Queue) → IsDead t → buried t q ≡ move_to_dlq t q
buried-dead t q d = rw d.0 refl

process_task-IsSound :
    (o : Outside) (now later : ℕ) (t : Task) (rest : List Task) (w : World)
    → get_pending w.queue ≡ t ∷ rest
    → IsSound w.queue
    → IsSound (process_task o now later t w).queue
unfolding process_task get_pending move_to_dlq
process_task-IsSound o now later t rest w e h =
    let result = (perform o t.tenant_id t.action w.site).1 in
    let new = settled later (begun now t) result in
    let written = record w.queue { tasks = write_first new w.queue.tasks } in
    let below =
      waiting-lt t (first-queued t rest w.queue.tasks e)
        (All-first IsKept t rest w.queue.tasks e h.0) in
    elim (settled-IsKept now later t result below) [
      | inl k ↦
          subst IsSound (sym (buried-kept new written k))
            (All-write_first IsKept new w.queue.tasks k h.0, h.1)
      | inr d ↦ subst IsSound (sym (buried-dead new written d)) (
        All-buried IsKept new w.queue.tasks h.0,
        All-append IsDead w.queue.dlq (new ∷ []) h.1 (d, tt),
      )
    ]

taken-IsSound :
    (o : Outside) (now later : ℕ) (pending : List Task) (w : World)
    → get_pending w.queue ≡ pending
    → IsSound w.queue
    → IsSound (taken o now later pending w).queue
taken-IsSound o now later [] w e h = h
taken-IsSound o now later (t ∷ rest) w e h = process_task-IsSound o now later t rest w e h

happen-IsSound : (e : Event) (w : World) → IsSound w.queue → IsSound (happen e w).queue
unfolding happen Queue.dispatch add_task run_loop
happen-IsSound (dispatched now id tenant_id action) w h =
    (All-append IsKept w.queue.tasks _ h.0 (inl (refl, omega arith), tt), h.1)
happen-IsSound (round o now later) w h =
    let pending = get_pending w.queue in
    taken-IsSound o now later pending (record w { tenant_queue_depth = length pending }) refl h

-- From a queue where this holds, whatever is dispatched and whatever the tasks do, with calls outside
-- that may fail in one round and not in another, between the rounds of the worker every task of the
-- queue is either waiting, with fewer than three attempts made, or has succeeded within three; and
-- every dead letter has failed, after three attempts, and has an error.
pub happen_all-IsSound :
    (events : List Event) (w : World) → IsSound w.queue → IsSound (happen_all events w).queue
unfolding happen_all
happen_all-IsSound [] w h = h
happen_all-IsSound (e ∷ es) w h = happen_all-IsSound es (happen e w) (happen-IsSound e w h)
