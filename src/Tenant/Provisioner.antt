-- ===== src/Tenant/Provisioner.antt =====
-- platform/tenant-manager/provisioning/provisioner.js: `provision`.
use sj_cloud.Prelude.{String, Option, none, some, ok, err}
use sj_cloud.Tenant.Lifecycle.{
  TenantState, creating, provisioning, starting, active, failed, record_provision_time,
  record_rollback,
}
use sj_cloud.Tenant.Transactions.{run}
use sj_cloud.Tenant.Site.{
  Tenant, Site, Failure, missing_tenant, thrown, Context, Outside, Outcome, throwing, shift,
  save_as,
}

-- Inside the `try`: the site, the state of the machine, and the error that was thrown.
abbrev pub Stage : Type 0
Stage = Site × TenantState × Option Failure

infixl 10 ◌then_stage◌
abbrev pub ◌then_stage◌ : Stage → (TenantState → Site → Stage) → Stage
(s, state, none) then_stage f = f state s
(s, state, some e) then_stage f = (s, state, some e)

-- a transition of the machine
abbrev pub moving : TenantState → Outcome TenantState → Stage
moving state (s, ok next) = (s, next, none)
moving state (s, err e) = (s, state, some e)

-- a statement that leaves the machine alone
abbrev pub doing : TenantState → Outcome Unit → Stage
doing state (s, ok _) = (s, state, none)
doing state (s, err e) = (s, state, some e)

-- `context.env.status = 'ACTIVE'` and `saveTenant`
abbrev pub save_env : Outside → Option Tenant → Site → Outcome Unit
save_env o none s = (s, err missing_tenant)
save_env o (some t) s = save_as o active t s

-- what follows the transaction, where it returns
abbrev pub after_run : Outside → TenantState → Context × Option String → Stage
after_run o state (c, some e) = (c.site, state, some (thrown e))
after_run o state (c, none) =
    moving state (shift starting state c.site)
    then_stage (λ state s. doing state (save_env o c.env s))
    then_stage λ state s. moving state (shift active state s)

-- the `try` block
unfoldable pub attempt : Outside → String → Site → Stage
attempt o id s =
    doing creating (throwing (o.denied id s) s)
    then_stage (λ state s. moving state (shift provisioning state s))
    then_stage λ state s. after_run o state (run (o.steps id) (record { env = none; site = s }))

-- the transition of the `catch`, whose error would take the place of the first one, and the count of
-- rollbacks
abbrev pub rolled_back : Failure → Outcome TenantState → Outcome Unit
rolled_back e (s, ok state) = (record s { metrics = record_rollback s.metrics }, err e)
rolled_back e (s, err other) = (s, err other)

abbrev pub concluded : Outside → String → Stage → Outcome Unit
concluded o id (s, state, none) =
    (record s { metrics = record_provision_time (o.duration id) s.metrics }, ok tt)
concluded o id (s, state, some e) = rolled_back e (shift failed state s)

-- `provision`
unfoldable pub provision_tenant : Outside → String → Site → Outcome Unit
unfolding attempt
provision_tenant o id s = concluded o id (attempt o id s)
