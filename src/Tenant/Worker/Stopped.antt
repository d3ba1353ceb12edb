-- ===== src/Tenant/Worker/Stopped.antt =====
-- A tenant that a task has stopped.
use sj_cloud.Prelude.{
  String, Option, none, some, ◌≡◌, refl, ok, err, lookup, lookup-put_self, arith, ap, subst,
}
use sj_cloud.Tenant.Lifecycle.{TenantState, starting, suspended, restoring, archived, transition_to}
use sj_cloud.Tenant.Queue.{start, stop, restore, archive}
use sj_cloud.Tenant.Site.{
  Tenant, Site, lifecycle, Outside, Outcome, ◌and_then◌, throwing, present, shift, save_as,
  save_tenant, set_status,
}
use sj_cloud.Tenant.Actions.{perform}

-- the machine of a suspended tenant refuses a state
abbrev pub refused : TenantState → Site → Outcome Unit
refused next s = (s, err (lifecycle (record { from = suspended; to = next })))

suspended-refused :
    (o : Outside) (id : String) (s : Site) (t : Tenant)
    → lookup id s.tenants ≡ some t
    → t.status ≡ suspended
    → (perform o id start s ≡ refused starting s)
      × (perform o id restore s ≡ refused restoring s)
      × (perform o id archive s ≡ refused archived s)
unfolding perform shift transition_to
suspended-refused o id s t e q =
    (rw (e, present, q) refl, rw (e, present, q) refl, rw (e, present, q) refl)

and_then-ok :
    {A B : Type 0} (x : Outcome A) (f : A → Site → Outcome B) {s' : Site} {b : B}
    → x and_then f ≡ (s', ok b)
    → (a : A) × (s : Site) × (x ≡ (s, ok a)) × (f a s ≡ (s', ok b))
and_then-ok (s, ok a) f h = (a, s, refl, h)
and_then-ok (s, err e) f h = ground arith

throwing-ok : (e : Option String) (s : Site) {s' : Site} → throwing e s ≡ (s', ok tt) → s ≡ s'
throwing-ok none s h = ap (λ r. r.0) h
throwing-ok (some e) s h = ground arith

save_as-ok :
    (o : Outside) (status : TenantState) (t : Tenant) (s : Site) {s' : Site}
    → save_as o status t s ≡ (s', ok tt)
    → lookup t.tenant_id s'.tenants ≡ some (record t { status = status })
unfolding save_as save_tenant
save_as-ok o status t s h =
    let (_, s2, p, q) =
      and_then-ok (throwing (o.save_error (record t { status = status })) (set_status status t s).1)
        _ h in
    subst (λ z. lookup t.tenant_id z.tenants ≡ some (record t { status = status }))
      (ap (λ r. r.0) q) (lookup-put_self t.tenant_id (record t { status = status }) s2.tenants)

present-some :
    (l : Option Tenant) (t t' : Tenant) (s s' : Site)
    → l ≡ some t
    → present l s ≡ (s', ok t')
    → t' ≡ t
present-some none t t' s s' e h = ground arith
present-some (some x) t t' s s' e h = ground arith

stop-suspended :
    (o : Outside) (id : String) (s s' : Site) (t : Tenant)
    → lookup id s.tenants ≡ some t
    → t.tenant_id ≡ id
    → perform o id stop s ≡ (s', ok tt)
    → lookup id s'.tenants ≡ some (record t { status = suspended })
unfolding perform
stop-suspended o id s s' t e k h =
    let (t', s1, p, h1) = and_then-ok (present (lookup id s.tenants) s) _ h in
    let (_, s2, _, h2) = and_then-ok (shift suspended t'.status s1) _ h1 in
    let same = present-some (lookup id s.tenants) t t' s s1 e p in
    rw (← k) (
      subst (λ x. lookup x.tenant_id s'.tenants ≡ some (record x { status = suspended })) same
        (save_as-ok o suspended t' s2 h2))

-- After a task has stopped a tenant that is registered under its identifier, a task to start, to
-- restore or to archive that tenant throws the error of the transition from `SUSPENDED`, and leaves
-- the site as it is.
pub stopped-refused :
    (o : Outside) (id : String) (s s' : Site) (t : Tenant)
    → lookup id s.tenants ≡ some t
    → t.tenant_id ≡ id
    → perform o id stop s ≡ (s', ok tt)
    → (perform o id start s' ≡ refused starting s')
      × (perform o id restore s' ≡ refused restoring s')
      × (perform o id archive s' ≡ refused archived s')
stopped-refused o id s s' t e k h =
    suspended-refused o id s' (record t { status = suspended }) (stop-suspended o id s s' t e k h)
      refl
