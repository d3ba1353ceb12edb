-- ===== src/Pipeline/Runs/Moves.antt =====
-- What one transition does to the numbers that the metrics stand for.
use sj_cloud.Prelude.{
  ℕ, ◌+◌, ◌≡◌, Bool, true, ◌&&◌, ◌||◌, List, arith, count, count-set_at, set_at, get_elem?, some_of,
  some, if◌then◌else◌,
}
use sj_cloud.Pipeline.Machine.{
  PipelineState, queued, running, success, failed, cancelled, same, valid_transitions, track,
}
use sj_cloud.Pipeline.Runs.{Machine, Runs, has_come, has_started, may_have_started, IsTallied}

-- the effect of a transition on a number of machines
abbrev pub Counted : (Machine → Bool) → List Machine → List Machine → Machine → Machine → Type 0
Counted p l k b a = count p k + (if p b then 1 else 0) ≡ count p l + (if p a then 1 else 0)

pub move_counts :
    (id : ℕ) (b a : Machine) (l : List Machine)
    → get_elem? l id ≡ some b
    → let k = set_at id a l in
      Counted (has_come success) l k b a
      × Counted (has_come failed) l k b a
      × Counted (has_come cancelled) l k b a
      × Counted has_started l k b a
      × Counted may_have_started l k b a
move_counts id b a l h = (
  count-set_at (has_come success) id b a l h,
  count-set_at (has_come failed) id b a l h,
  count-set_at (has_come cancelled) id b a l h,
  count-set_at has_started id b a l h,
  count-set_at may_have_started id b a l h,
)

pub move-IsTallied :
    (id : ℕ) (i s next : PipelineState) (r : Runs)
    → get_elem? r.machines id ≡ some (record { initial = i; state = s })
    → same queued i || (same running i && same running s) ≡ true
    → some_of (same next) (valid_transitions s) ≡ true
    → IsTallied r
    → IsTallied (record {
      machines = set_at id (record { initial = i; state = next }) r.machines;
      metrics = track s next r.metrics;
    })
unfolding track
move-IsTallied id queued queued running r there p h c = ground (
  arith,
  move_counts id (record { initial = queued; state = queued })
      (record { initial = queued; state = running }) r.machines there,
)
move-IsTallied id queued queued cancelled r there p h c = ground (
  arith,
  move_counts id (record { initial = queued; state = queued })
      (record { initial = queued; state = cancelled }) r.machines there,
)
move-IsTallied id queued running success r there p h c = ground (
  arith,
  move_counts id (record { initial = queued; state = running })
      (record { initial = queued; state = success }) r.machines there,
)
move-IsTallied id queued running failed r there p h c = ground (
  arith,
  move_counts id (record { initial = queued; state = running })
      (record { initial = queued; state = failed }) r.machines there,
)
move-IsTallied id queued running cancelled r there p h c = ground (
  arith,
  move_counts id (record { initial = queued; state = running })
      (record { initial = queued; state = cancelled }) r.machines there,
)
move-IsTallied id queued queued queued r there p h c = ground arith
move-IsTallied id queued queued success r there p h c = ground arith
move-IsTallied id queued queued failed r there p h c = ground arith
move-IsTallied id queued running queued r there p h c = ground arith
move-IsTallied id queued running running r there p h c = ground arith
move-IsTallied id queued success next r there p h c = ground arith
move-IsTallied id queued failed next r there p h c = ground arith
move-IsTallied id queued cancelled next r there p h c = ground arith
move-IsTallied id running queued running r there p h c = ground arith
move-IsTallied id running queued cancelled r there p h c = ground arith
move-IsTallied id running running success r there p h c = ground (
  arith,
  move_counts id (record { initial = running; state = running })
      (record { initial = running; state = success }) r.machines there,
)
move-IsTallied id running running failed r there p h c = ground (
  arith,
  move_counts id (record { initial = running; state = running })
      (record { initial = running; state = failed }) r.machines there,
)
move-IsTallied id running running cancelled r there p h c = ground (
  arith,
  move_counts id (record { initial = running; state = running })
      (record { initial = running; state = cancelled }) r.machines there,
)
move-IsTallied id running queued queued r there p h c = ground arith
move-IsTallied id running queued success r there p h c = ground arith
move-IsTallied id running queued failed r there p h c = ground arith
move-IsTallied id running running queued r there p h c = ground arith
move-IsTallied id running running running r there p h c = ground arith
move-IsTallied id running success next r there p h c = ground arith
move-IsTallied id running failed next r there p h c = ground arith
move-IsTallied id running cancelled next r there p h c = ground arith
move-IsTallied id success s next r there p h c = ground arith
move-IsTallied id failed s next r there p h c = ground arith
move-IsTallied id cancelled s next r there p h c = ground arith
