-- ===== src/Pipeline/Examples.antt =====
-- The theorems of the runs and of the steps at concrete inputs.
use sj_cloud.Pipeline.Executor.{Step}
use sj_cloud.Prelude.{String, none, Result, err, List, [], ◌∷◌, some, ◌≡◌, refl}
use sj_cloud.Pipeline.Machine.{queued, running, success, cancelled, transition_to, track}
use sj_cloud.Pipeline.Runs.{Action, build, ask, act, act_all, IsTallied}
use sj_cloud.Pipeline.Runs.Tallied.{no_runs, act_all-IsTallied}

-- the second run is cancelled twice, each time by a machine of its own
abbrev actions : List Action
actions =
    build queued
    ∷ ask 0 running
    ∷ build queued
    ∷ ask 1 running
    ∷ build running
    ∷ ask 2 cancelled
    ∷ build running
    ∷ ask 3 cancelled
    ∷ ask 0 success
    ∷ []

act_all-IsTallied_example : IsTallied (act_all actions no_runs)
act_all-IsTallied_example = act_all-IsTallied actions

after_actions :
    ((act_all actions no_runs).metrics.pipeline_runs_cancelled ≡ 2)
    × ((act_all actions no_runs).metrics.pipeline_runs_total ≡ 2)
unfolding act_all act transition_to track
after_actions = (refl, refl)

abbrev make : Step
make = record { name = none; run = some "make test"; retry = some 2 }

abbrev broken_shell : String → Result String String
broken_shell command = err "exit code 2"
