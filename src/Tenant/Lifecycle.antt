-- ===== src/Tenant/Lifecycle.antt =====
-- platform/tenant-manager/lifecycle/lifecycle-fsm.js: the state machine of a tenant and the metrics
-- that all of them share. The events that a transition emits are left out.
pub mod Fleet
pub mod Bounded
pub mod Final
mod Examples
use sj_cloud.Prelude.{
  ℕ, ◌+◌, ◌-◌, String, Bool, true, false, List, [], ◌∷◌, ◌++◌, Dict, lookup, put, bump, tally, ltb,
  some_of, str_eq, if◌then◌else◌, Result, ok, err,
}

pub data TenantState : Type 0 where
  creating provisioning starting active suspended updating migrating restoring archived failed
        deleting deleted :
      TenantState

-- the text of a state
abbrev pub name : TenantState → String
name creating = "CREATING"
name provisioning = "PROVISIONING"
name starting = "STARTING"
name active = "ACTIVE"
name suspended = "SUSPENDED"
name updating = "UPDATING"
name migrating = "MIGRATING"
name restoring = "RESTORING"
name archived = "ARCHIVED"
name failed = "FAILED"
name deleting = "DELETING"
name deleted = "DELETED"

-- `a === b` on states
abbrev pub same : TenantState → TenantState → Bool
same a b = str_eq (name a) (name b)

-- `ValidTransitions`
abbrev pub valid_transitions : TenantState → List TenantState
valid_transitions creating = provisioning ∷ failed ∷ deleting ∷ []
valid_transitions provisioning = starting ∷ failed ∷ deleting ∷ []
valid_transitions starting = active ∷ failed ∷ deleting ∷ []
valid_transitions active = suspended ∷ updating ∷ migrating ∷ archived ∷ deleting ∷ failed ∷ []
valid_transitions suspended = active ∷ deleting ∷ failed ∷ []
valid_transitions updating = active ∷ failed ∷ []
valid_transitions migrating = active ∷ failed ∷ []
valid_transitions restoring = active ∷ failed ∷ []
valid_transitions archived = restoring ∷ deleting ∷ failed ∷ []
valid_transitions failed = provisioning ∷ starting ∷ restoring ∷ deleting ∷ []
valid_transitions deleting = deleted ∷ failed ∷ []
valid_transitions deleted = []

pub record Metrics : Type 0 where
  pub tenant_total : ℕ
  pub tenant_active : ℕ
  pub tenant_failed : ℕ
  pub tenant_rollbacks : ℕ
  pub tenant_provision_time : List ℕ
  pub tenant_states : Dict ℕ
  pub tenant_events : ℕ

-- `tenantMetrics` when the module is loaded
abbrev pub no_metrics : Metrics
no_metrics = record {
  tenant_total = 0;
  tenant_active = 0;
  tenant_failed = 0;
  tenant_rollbacks = 0;
  tenant_provision_time = [];
  tenant_states = [];
  tenant_events = 0;
}

-- the count of a state, one up for the new state and then one down for the old state, where it has
-- one
unfoldable pub move_count : TenantState → TenantState → Dict ℕ → Dict ℕ
move_count old next states =
    let raised = bump (name next) states in
    if ltb 0 (tally (name old) raised)
    then put (name old) (tally (name old) raised - 1) raised
    else raised

-- `Math.max(0, n - 1)` is the subtraction that stops at 0.
unfoldable pub update_metrics : TenantState → TenantState → Metrics → Metrics
update_metrics old next m =
    let entered = if same next active then m.tenant_active + 1 else m.tenant_active in
    let broken = if same next failed then m.tenant_failed + 1 else m.tenant_failed in
    record m {
      tenant_states = move_count old next m.tenant_states;
      tenant_active = if same old active then entered - 1 else entered;
      tenant_failed = if same old failed then broken - 1 else broken;
    }

-- the `LifecycleError` of a transition that the table does not have
pub record LifecycleError : Type 0 where
  pub from : TenantState
  pub to : TenantState

-- `transitionTo`: the machine's state and the metrics after it
unfoldable pub transition_to :
    TenantState → TenantState → Metrics → Result LifecycleError (TenantState × Metrics)
transition_to next state m =
    if same state next
    then ok (state, m)
    else (if some_of (same next) (valid_transitions state)
        then ok (next, update_metrics state next (record m { tenant_events = m.tenant_events + 1 }))
        else err (record { from = state; to = next }))

unfoldable pub record_provision_time : ℕ → Metrics → Metrics
record_provision_time ms m = record m { tenant_provision_time = m.tenant_provision_time ++ ms ∷ [] }

unfoldable pub record_rollback : Metrics → Metrics
record_rollback m = record m { tenant_rollbacks = m.tenant_rollbacks + 1 }
