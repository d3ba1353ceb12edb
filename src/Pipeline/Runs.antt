-- ===== src/Pipeline/Runs.antt =====
-- The machines of all runs of the pipelines, and what the shared metrics say of them.
pub mod Plain
pub mod Moves
pub mod Tallied
use sj_cloud.Prelude.{
  zero, suc, ℕ, ◌+◌, ◌≤◌, ◌≡◌, refl, Bool, true, not, ◌&&◌, ◌||◌, List, [], ◌∷◌, ◌++◌, arith, count,
  count-set_at, count-append, set_at, get_elem?, All, All-append, some_of, Result, ok, err, Option,
  some, none, Option-cases, ◌⊎◌, inl, inr, Bool-cases, if◌then◌else◌,
}
use sj_cloud.Pipeline.Machine.{
  PipelineState, queued, running, success, failed, cancelled, same, valid_transitions, Metrics,
  no_metrics, track, TransitionError, transition_to,
}

-- a machine, with the state that it was built in; a run may have several
pub record Machine : Type 0 where
  pub initial : PipelineState
  pub state : PipelineState

-- the machines in the order in which they were built
pub record Runs : Type 0 where
  pub machines : List Machine
  pub metrics : Metrics

-- a machine is built in a state, or one, by its number, is asked for a state
pub data Action : Type 0 where
  build : PipelineState → Action
  ask : ℕ → PipelineState → Action

-- a transition of one machine; an error leaves everything as it was
abbrev pub moved : ℕ → Machine → Result TransitionError (PipelineState × Metrics) → Runs → Runs
moved id m (ok (state, metrics)) r = record {
  machines = set_at id (record m { state = state }) r.machines;
  metrics = metrics;
}
moved id m (err e) r = r

abbrev pub asked : ℕ → PipelineState → Option Machine → Runs → Runs
asked id next none r = r
asked id next (some m) r = moved id m (transition_to next m.state r.metrics) r

unfoldable pub act : Action → Runs → Runs
act (build state) r = record r {
  machines = r.machines ++ (record { initial = state; state = state } ∷ []);
}
act (ask id next) r = asked id next (get_elem? r.machines id) r

unfoldable pub act_all : List Action → Runs → Runs
act_all [] r = r
act_all (a ∷ rest) r = act_all rest (act a r)

-- the machines that have come to a state in which they were not built
abbrev pub has_come : PipelineState → Machine → Bool
has_come s m = same s m.state && not (same s m.initial)

-- the machines that were built to wait, and have left the queue but not by being cancelled
abbrev pub has_started : Machine → Bool
has_started m =
    same queued m.initial && (same running m.state || (same success m.state || same failed m.state))

-- and those of them that may have been cancelled while they ran
abbrev pub may_have_started : Machine → Bool
may_have_started m = same queued m.initial && not (same queued m.state)

-- The metrics count the machines that came to each end; the starts are at least the queued machines
-- that run or ended by themselves, and at most all that have left the queue.
pub record IsTallied (r : Runs) : Type 0 where
  pub successes : r.metrics.pipeline_runs_success ≡ count (has_come success) r.machines
  pub failures : r.metrics.pipeline_runs_failed ≡ count (has_come failed) r.machines
  pub cancellations : r.metrics.pipeline_runs_cancelled ≡ count (has_come cancelled) r.machines
  pub started_least : count has_started r.machines ≤ r.metrics.pipeline_runs_total
  pub started_most : r.metrics.pipeline_runs_total ≤ count may_have_started r.machines
