-- ===== src/Pipeline/Runs/Tallied.antt =====
-- The metrics of the runs after any calls, and the runs that have ended.
use sj_cloud.Prelude.{
  false, get_elem?-append, ap, sym, get_elem?-set_at, ℕ, ◌+◌, ◌≡◌, refl, true, List, [], ◌∷◌, ◌++◌,
  arith, count, count-append, get_elem?, All, All-append, some_of, ok, err, some, Option-cases, ◌⊎◌,
  inl, inr, Bool-cases, if◌then◌else◌,
}
use sj_cloud.Pipeline.Machine.{
  PipelineState, queued, running, success, failed, cancelled, same, valid_transitions, Metrics,
  no_metrics, track, transition_to,
}
use sj_cloud.Pipeline.Runs.{
  Machine, Runs, Action, build, ask, moved, asked, act, act_all, has_come, has_started,
  may_have_started, IsTallied,
}
use sj_cloud.Pipeline.Runs.Plain.{
  is_plain, IsPlain, All-get_elem?, All-set_at, moves-plain, moved-plain,
}
use sj_cloud.Pipeline.Runs.Moves.{move-IsTallied}

-- A machine that is asked for a state refuses or moves to it.
asked-cases :
    (state next : PipelineState) (m : Metrics)
    → (transition_to next state m ≡ err (record { from = state; to = next }))
      ⊎ ((some_of (same next) (valid_transitions state) ≡ true)
          × (transition_to next state m ≡ ok (next, track state next m)))
unfolding transition_to
asked-cases state next m = elim (Bool-cases (some_of (same next) (valid_transitions state))) [
  | inl h ↦ inr (h, rw h refl)
  | inr h ↦ inl (rw h refl)
]

-- what holds of the machines and the metrics after any calls
IsSound : Runs → Type 0
IsSound r = IsTallied r × All IsPlain r.machines

build_counts :
    (a : Machine) (l : List Machine)
    → let k = l ++ (a ∷ []) in
      (count (has_come success) k
        ≡ count (has_come success) l + (if has_come success a then 1 else 0))
      × (count (has_come failed) k
          ≡ count (has_come failed) l + (if has_come failed a then 1 else 0))
      × (count (has_come cancelled) k
          ≡ count (has_come cancelled) l + (if has_come cancelled a then 1 else 0))
      × (count has_started k ≡ count has_started l + (if has_started a then 1 else 0))
      × (count may_have_started k
          ≡ count may_have_started l + (if may_have_started a then 1 else 0))
build_counts a l = (
  count-append (has_come success) l (a ∷ []),
  count-append (has_come failed) l (a ∷ []),
  count-append (has_come cancelled) l (a ∷ []),
  count-append has_started l (a ∷ []),
  count-append may_have_started l (a ∷ []),
)

build-IsTallied : (s : PipelineState) (r : Runs) → IsTallied r → IsTallied (act (build s) r)
unfolding act
build-IsTallied queued r c =
    ground (arith, c, build_counts (record { initial = queued; state = queued }) r.machines)
build-IsTallied running r c =
    ground (arith, c, build_counts (record { initial = running; state = running }) r.machines)
build-IsTallied success r c =
    ground (arith, c, build_counts (record { initial = success; state = success }) r.machines)
build-IsTallied failed r c =
    ground (arith, c, build_counts (record { initial = failed; state = failed }) r.machines)
build-IsTallied cancelled r c =
    ground (arith, c, build_counts (record { initial = cancelled; state = cancelled }) r.machines)

built-plain : (s : PipelineState) → is_plain (record { initial = s; state = s }) ≡ true
built-plain queued = refl
built-plain running = refl
built-plain success = refl
built-plain failed = refl
built-plain cancelled = refl

act-IsSound : (a : Action) (r : Runs) → IsSound r → IsSound (act a r)
unfolding act IsSound
act-IsSound (build s) r c =
    (build-IsTallied s r c.0, All-append IsPlain r.machines (_ ∷ []) c.1 (built-plain s, tt))
act-IsSound (ask id next) r c = elim (Option-cases (get_elem? r.machines id)) [
  | inl e ↦ rw (e, asked) c
  | inr (m, e) ↦ elim (asked-cases m.state next r.metrics) [
    | inl k ↦ rw (e, asked, k, moved) c
    | inr (h, k) ↦
        let p = moves-plain m.initial m.state next (All-get_elem? id m r.machines c.1 e) h in
        rw (e, asked, k, moved)
          (
            move-IsTallied id m.initial m.state next r e p h c.0,
            All-set_at id (record m { state = next }) r.machines c.1
                (moved-plain m.initial m.state next p h),
          )
  ]
]

from-IsSound : (actions : List Action) (r : Runs) → IsSound r → IsSound (act_all actions r)
unfolding act_all
from-IsSound [] r c = c
from-IsSound (a ∷ rest) r c = from-IsSound rest (act a r) (act-IsSound a r c)

-- the module when it is loaded
abbrev pub no_runs : Runs
no_runs = record { machines = []; metrics = no_metrics }

-- Whatever machines are built, for whatever runs and in whatever states, and whatever states they
-- are asked for, in any order, the shared metrics count exactly the machines that have come to
-- `SUCCESS`, to `FAILED` and to `CANCELLED` from another state. The starts that they count are at
-- least the machines that were built queued and run or ended by themselves, and at most those that
-- were built queued and have left the queue.
pub act_all-IsTallied : (actions : List Action) → IsTallied (act_all actions no_runs)
unfolding IsSound
act_all-IsTallied actions = (from-IsSound actions no_runs (start, tt)).0
  where
    start : IsTallied no_runs
    start = record {
      successes = refl;
      failures = refl;
      cancellations = refl;
      started_least = omega arith;
      started_most = omega arith;
    }

ended-final :
    (s next : PipelineState)
    → valid_transitions s ≡ []
    → some_of (same next) (valid_transitions s) ≡ false
ended-final s next v = rw v refl

act-ended :
    (a : Action) (id : ℕ) (m : Machine) (r : Runs)
    → valid_transitions m.state ≡ []
    → get_elem? r.machines id ≡ some m
    → get_elem? (act a r).machines id ≡ some m
unfolding act
act-ended (build s) id m r v h = get_elem?-append id m r.machines _ h
act-ended (ask j next) id m r v h = elim (Option-cases (get_elem? r.machines j)) [
  | inl e ↦ rw (e, asked) h
  | inr (n, e) ↦ elim (asked-cases n.state next r.metrics) [
    | inl k ↦ rw (e, asked, k, moved) h
    | inr (l, k) ↦ elim (get_elem?-set_at id j m (record n { state = next }) r.machines h) [
      | inr kept ↦ rw (e, asked, k, moved) kept
      | inl q ↦
          let d = ap (λ i. get_elem? r.machines i) (sym q) in
          ground (arith, ended-final n.state next (ground (arith, e, d, h, v)), l)
    ]
  ]
]

-- A machine that has succeeded, failed or been cancelled keeps its state, whatever is built and asked
-- after that.
pub act_all-ended :
    (actions : List Action) (id : ℕ) (m : Machine) (r : Runs)
    → valid_transitions m.state ≡ []
    → get_elem? r.machines id ≡ some m
    → get_elem? (act_all actions r).machines id ≡ some m
unfolding act_all
act_all-ended [] id m r v h = h
act_all-ended (a ∷ rest) id m r v h = act_all-ended rest id m (act a r) v (act-ended a id m r v h)
