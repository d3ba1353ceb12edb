-- ===== src/Tenant/Cache/Lookups.antt =====
-- What the lookups find.
use sj_cloud.Prelude.{
  ℕ, ◌+◌, String, Bool, true, false, Dict, lookup, put, List, [], ◌∷◌, map, length, Option, none,
  some, ◌≡◌, refl, arith, some_of, ◌||◌, ◌&&◌, not, count, ◌∙◌, str_eq, lookup-put, if◌then◌else◌,
}
use sj_cloud.Tenant.Lifecycle.{
  TenantState, creating, provisioning, starting, active, suspended, updating, migrating, restoring,
  archived, failed, deleting, deleted, same,
}
use sj_cloud.Tenant.Cache.{
  TenantConfig, Cache, put_if, truthy, put_all, lowered, set, get, get_by_domain, get_all, values,
  Summary, counted, summed, get_summary,
}

-- the test whether a key is one of a list
abbrev pub among : String → List String → Bool
among k keys = some_of (λ j. str_eq j k) keys

lookup-put_all :
    (keys : List String) (t : TenantConfig) (k : String) (m : Dict TenantConfig)
    → lookup k (put_all keys t m) ≡ (if among k keys then some t else lookup k m)
unfolding put_all
lookup-put_all [] t k m = refl
lookup-put_all (key ∷ keys) t k m =
    ground (arith, lookup-put_all keys t k (put key t m), lookup-put key k t m)

abbrev pub is_primary : (String → String) → Option String → String → Bool
is_primary lower none k = false
is_primary lower (some d) k = str_eq (lower d) k

-- the domains that a tenant is stored under
abbrev pub is_domain : (String → String) → TenantConfig → String → Bool
is_domain lower t d =
    not (str_eq d "")
    && (among (lower d) (map lower t.custom_domains)
        || is_primary lower (truthy t.primary_domain) (lower d))

lookup-put_if :
    (lower : String → String) (p : Option String) (t : TenantConfig) (k : String)
    (m : Dict TenantConfig)
    → lookup k (put_if (lowered lower p) t m)
      ≡ (if is_primary lower p k then some t else lookup k m)
lookup-put_if lower none t k m = refl
lookup-put_if lower (some d) t k m = lookup-put (lower d) k t m

-- A tenant that is stored is found by its identifier; every other identifier finds what it found.
pub get-set :
    (lower : String → String) (t : TenantConfig) (id : String) (c : Cache)
    → get id (set lower t c) ≡ (if str_eq t.tenant_id id then some t else get id c)
unfolding get set
get-set lower t id c = lookup-put t.tenant_id id t c.tenants_by_id

-- A tenant that is stored is found by its primary domain and by its custom ones, where they are not
-- empty, in any case of letters that `lower` takes to the same text; every other domain finds what
-- it found before, be it an earlier state of the tenant.
pub get_by_domain-set :
    (lower : String → String) (t : TenantConfig) (d : String) (c : Cache)
    → get_by_domain lower d (set lower t c)
      ≡ (if is_domain lower t d then some t else get_by_domain lower d c)
unfolding get_by_domain set
get_by_domain-set lower t d c = ground (
  arith,
  lookup-put_all (map lower t.custom_domains) t (lower d)
      (put_if (lowered lower (truthy t.primary_domain)) t c.tenants_by_domain),
  lookup-put_if lower (truthy t.primary_domain) t (lower d) c.tenants_by_domain,
)

-- the sum of the counts
abbrev pub sum : Summary → ℕ
sum s = s.active + (s.suspended + (s.failed + (s.archived + (s.provisioning + s.other))))

counted-sum : (x : TenantState) (s : Summary) → sum (counted x s) ≡ sum s + 1
counted-sum creating s = omega arith
counted-sum provisioning s = omega arith
counted-sum starting s = omega arith
counted-sum active s = omega arith
counted-sum suspended s = omega arith
counted-sum updating s = omega arith
counted-sum migrating s = omega arith
counted-sum restoring s = omega arith
counted-sum archived s = omega arith
counted-sum failed s = omega arith
counted-sum deleting s = omega arith
counted-sum deleted s = omega arith

counted-active :
    (x : TenantState) (s : Summary)
    → (counted x s).active ≡ (if same x active then s.active + 1 else s.active)
counted-active creating s = refl
counted-active provisioning s = refl
counted-active starting s = refl
counted-active active s = refl
counted-active suspended s = refl
counted-active updating s = refl
counted-active migrating s = refl
counted-active restoring s = refl
counted-active archived s = refl
counted-active failed s = refl
counted-active deleting s = refl
counted-active deleted s = refl

counted-total : (x : TenantState) (s : Summary) → (counted x s).total ≡ s.total
counted-total creating s = refl
counted-total provisioning s = refl
counted-total starting s = refl
counted-total active s = refl
counted-total suspended s = refl
counted-total updating s = refl
counted-total migrating s = refl
counted-total restoring s = refl
counted-total archived s = refl
counted-total failed s = refl
counted-total deleting s = refl
counted-total deleted s = refl

summed-sum :
    (ts : List TenantConfig) (s : Summary)
    → (sum (summed ts s) ≡ sum s + length ts)
      × ((summed ts s).active ≡ s.active + count (λ t. same t.status active) ts)
      × ((summed ts s).total ≡ s.total)
unfolding summed
summed-sum [] s = (omega arith, omega arith, refl)
summed-sum (t ∷ ts) s =
    let (a, b, c) = summed-sum ts (counted t.status s) in
    (
      omega (arith, a, counted-sum t.status s),
      ground (arith, b, counted-active t.status s),
      c ∙ counted-total t.status s,
    )

-- The counts of the summary add up to the number of the tenants, and its count of active ones is the
-- number of the tenants with that status.
pub get_summary-sum :
    (c : Cache)
    → (sum (get_summary c) ≡ length (get_all c))
      × ((get_summary c).active ≡ count (λ t. same t.status active) (get_all c))
      × ((get_summary c).total ≡ length (get_all c))
unfolding get_summary get_all
get_summary-sum c =
    let (a, b, d) = summed-sum (values c.tenants_by_id) (record {
      total = length (values c.tenants_by_id);
      active = 0;
      suspended = 0;
      failed = 0;
      archived = 0;
      provisioning = 0;
      other = 0;
    }) in
    (omega (arith, a), omega (arith, b), d)

-- A domain of a stored configuration finds it even after another configuration, of the same tenant
-- or not, is stored that does not have the domain.
pub old_domain_kept :
    (lower : String → String) (old new : TenantConfig) (d : String) (c : Cache)
    → is_domain lower old d ≡ true
    → is_domain lower new d ≡ false
    → get_by_domain lower d (set lower new (set lower old c)) ≡ some old
old_domain_kept lower old new d c h k =
    get_by_domain-set lower new d (set lower old c)
    ∙ ground (arith, h, k, get_by_domain-set lower old d c)
