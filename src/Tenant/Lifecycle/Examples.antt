-- ===== src/Tenant/Lifecycle/Examples.antt =====
-- Tests of the tenant's state machine, and its theorems at concrete inputs.
use sj_cloud.Prelude.{List, [], ◌∷◌, ◌≡◌, refl, lookup, put, bump}
use sj_cloud.Tenant.Lifecycle.{
  creating, provisioning, starting, active, suspended, failed, transition_to, update_metrics,
  move_count,
}
use sj_cloud.Tenant.Lifecycle.Fleet.{
  Action, build, ask, no_fleet, act, act_all, moved, IsCounted, act_all-IsCounted,
}
use sj_cloud.Tenant.Lifecycle.Bounded.{IsBounded, act_all-IsBounded}

abbrev actions : List Action
actions =
    build creating
    ∷ ask 0 provisioning
    ∷ ask 0 starting
    ∷ ask 0 active
    ∷ build creating
    ∷ ask 1 failed
    ∷ ask 1 suspended
    ∷ []

-- the worker stops the first tenant with a machine of its own
abbrev stopping : List Action
stopping = build active ∷ ask 0 suspended ∷ build suspended ∷ []

fleet_counts :
    ((act_all actions no_fleet).metrics.tenant_active ≡ 1)
    × ((act_all actions no_fleet).metrics.tenant_failed ≡ 1)
    × ((act_all actions no_fleet).metrics.tenant_events ≡ 4)
unfolding act_all act moved transition_to update_metrics move_count lookup put bump
fleet_counts = (refl, refl, refl)

act_all-IsCounted_example : IsCounted (act_all actions no_fleet)
act_all-IsCounted_example =
    act_all-IsCounted actions (refl, (tt, (tt, (tt, (refl, (tt, (tt, tt)))))))

act_all-IsBounded_example : IsBounded (act_all stopping no_fleet)
act_all-IsBounded_example = act_all-IsBounded stopping
