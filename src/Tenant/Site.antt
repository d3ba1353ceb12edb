-- ===== src/Tenant/Site.antt =====
-- The tenants that a task of the queue works on: `saveTenant` and `deleteTenant` of
-- platform/tenant-manager/registry/tenant-registry.js, and what the tasks call outside. A tenant's configuration is left out but for its identifier and status.
use sj_cloud.Prelude.{ℕ, String, Bool, Dict, put, remove, List, Option, none, some, Result, ok, err}
use sj_cloud.Tenant.Lifecycle.{TenantState, Metrics, LifecycleError, transition_to}
use sj_cloud.Tenant.Transactions.{Step}

pub record Tenant : Type 0 where
  pub tenant_id : String
  pub status : TenantState

-- the registry's cache by identifier, and the shared metrics
pub record Site : Type 0 where
  pub tenants : Dict Tenant
  pub metrics : Metrics

-- what a task may throw
pub data Failure : Type 0 where
  lifecycle : LifecycleError → Failure
  missing_tenant : Failure
  unsupported_action : String → Failure
  thrown : String → Failure

-- `TransactionContext` with the site
pub record Context : Type 0 where
  pub env : Option Tenant
  pub site : Site

-- The file system, Docker and psql, and what reads them: the errors of saving and of destroying, the
-- success of a command in the directory of a tenant, the saved versions, the verdict of the policies,
-- the steps of provisioning, and the time that provisioning takes.
pub record Outside : Type 0 where
  pub save_error : Tenant → Option String
  pub destroy_error : String → Option String
  pub workspace_error : String → Option String
  pub command : String → String → Bool
  pub snapshot : String → String → Option Tenant
  pub denied : String → Site → Option String
  pub steps : String → List (Step Context)
  pub duration : String → ℕ

abbrev pub Outcome : Type 0 → Type 0
Outcome A = Site × Result Failure A

infixl 10 ◌and_then◌
abbrev pub ◌and_then◌ : {A B : Type 0} → Outcome A → (A → Site → Outcome B) → Outcome B
(s, ok a) and_then f = f a s
(s, err e) and_then f = (s, err e)

-- a statement that may throw a text
abbrev pub throwing : Option String → Site → Outcome Unit
throwing none s = (s, ok tt)
throwing (some e) s = (s, err (thrown e))

-- `fsm.transitionTo(next)` on a machine in a state, and the machine's new state
abbrev pub shifted : Site → Result LifecycleError (TenantState × Metrics) → Outcome TenantState
shifted s (ok (state, metrics)) = (record s { metrics = metrics }, ok state)
shifted s (err e) = (s, err (lifecycle e))

unfoldable pub shift : TenantState → TenantState → Site → Outcome TenantState
shift next state s = shifted s (transition_to next state s.metrics)

-- `getTenant`, whose status is read
abbrev pub present : Option Tenant → Site → Outcome Tenant
present none s = (s, err missing_tenant)
present (some t) s = (s, ok t)

-- `tenant.status = status` on the object that the cache holds
abbrev pub set_status : TenantState → Tenant → Site → Tenant × Site
set_status status t s =
    let t' = record t { status = status } in
    (t', record s { tenants = put t.tenant_id t' s.tenants })

-- `saveTenant`
unfoldable pub save_tenant : Outside → Tenant → Site → Outcome Unit
save_tenant o t s = throwing (o.save_error t) s and_then λ _ s.
    (record s { tenants = put t.tenant_id t s.tenants }, ok tt)

-- the status is set, and the tenant saved
unfoldable pub save_as : Outside → TenantState → Tenant → Site → Outcome Unit
save_as o status t s = let (t', s') = set_status status t s in save_tenant o t' s'

-- `deleteTenant`
unfoldable pub delete_tenant : String → Site → Site
delete_tenant id s = record s { tenants = remove id s.tenants }
