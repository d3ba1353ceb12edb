-- ===== src/Tenant/Lifecycle/Bounded.antt =====
-- The shared metrics where machines are built in any state, as the worker builds one from the status
-- of a tenant.
use sj_cloud.Prelude.{
  ℕ, ◌+◌, ◌≤◌, ◌≡◌, false, List, [], ◌∷◌, arith, tally, eq_iff, count, count-set_at, count-append,
  set_at, set_at_kept, get_elem?, Option-cases, some, inl, inr,
}
use sj_cloud.Tenant.Lifecycle.{TenantState, active, failed, name, same, update_metrics}
use sj_cloud.Tenant.Lifecycle.Fleet.{
  Action, build, ask, Fleet, no_fleet, asked, moved, act, act_all, stays, refuses, moves,
  transition_to-Moves, tally-move_count, tally_nothing,
}

-- no count of the metrics is above the number of machines in the state
pub record IsBounded (f : Fleet) : Type 0 where
  pub active_least : f.metrics.tenant_active ≤ count (same active) f.machines
  pub failed_least : f.metrics.tenant_failed ≤ count (same failed) f.machines
  pub states_least :
      (s : TenantState) → tally (name s) f.metrics.tenant_states ≤ count (same s) f.machines

move-IsBounded :
    (id : ℕ) (old next : TenantState) (f : Fleet)
    → get_elem? f.machines id ≡ some old
    → same old next ≡ false
    → IsBounded f
    → IsBounded (record {
      machines = set_at id next f.machines;
      metrics =
          update_metrics old next
            (record f.metrics { tenant_events = f.metrics.tenant_events + 1 });
    })
unfolding update_metrics
move-IsBounded id old next f there new c = record {
  active_least = ground (
    arith,
    c.active_least,
    count-set_at (same active) id old next f.machines there,
    eq_iff "ACTIVE" (name old),
    eq_iff (name old) "ACTIVE",
    eq_iff "ACTIVE" (name next),
    eq_iff (name next) "ACTIVE",
    eq_iff (name old) (name next),
  );
  failed_least = ground (
    arith,
    c.failed_least,
    count-set_at (same failed) id old next f.machines there,
    eq_iff "FAILED" (name old),
    eq_iff (name old) "FAILED",
    eq_iff "FAILED" (name next),
    eq_iff (name next) "FAILED",
    eq_iff (name old) (name next),
  );
  states_least = λ s. ground (
    arith,
    c.states_least s,
    count-set_at (same s) id old next f.machines there,
    tally-move_count old next (name s) f.metrics.tenant_states new,
    eq_iff (name s) (name old),
    eq_iff (name old) (name s),
    eq_iff (name s) (name next),
    eq_iff (name next) (name s),
    eq_iff (name old) (name next),
  );
}

act-IsBounded : (a : Action) (f : Fleet) → IsBounded f → IsBounded (act a f)
unfolding act moved
act-IsBounded (build state) f c = record {
  active_least = ground (arith, count-append (same active) f.machines (state ∷ []), c.active_least);
  failed_least = ground (arith, count-append (same failed) f.machines (state ∷ []), c.failed_least);
  states_least =
      λ s. ground (arith, count-append (same s) f.machines (state ∷ []), c.states_least s);
}
act-IsBounded (ask id next) f c = elim (Option-cases (get_elem? f.machines id)) [
  | inl e ↦ rw (e, asked) c
  | inr (s, e) ↦ elim (transition_to-Moves s next f.metrics) [
    | stays k ↦ rw (e, asked, k, moved, set_at_kept id s f.machines e) c
    | refuses k ↦ rw (e, asked, k, moved) c
    | moves n h k ↦ rw (e, asked, k, moved) (move-IsBounded id s next f e n c)
  ]
]

from-IsBounded : (actions : List Action) (f : Fleet) → IsBounded f → IsBounded (act_all actions f)
unfolding act_all
from-IsBounded [] f c = c
from-IsBounded (a ∷ rest) f c = from-IsBounded rest (act a f) (act-IsBounded a f c)

nothing_least : (s : TenantState) → tally (name s) [] ≤ 0
nothing_least s = ground (arith, tally_nothing s)

-- Whatever machines are built, several of one tenant or none, in whatever states, and whatever
-- states they are asked for, in any order, the shared metrics never count more active machines, more
-- failed ones or more in any state than there are.
pub act_all-IsBounded : (actions : List Action) → IsBounded (act_all actions no_fleet)
act_all-IsBounded actions = from-IsBounded actions no_fleet (record {
  active_least = omega arith;
  failed_least = omega arith;
  states_least = nothing_least;
})
