-- ===== src/Tenant/Cache.antt =====
-- platform/tenant-manager/registry/tenant-cache.js: the tenants by identifier, slug and domain, and
-- `getSummary` of registry/tenant-status.js. `toLowerCase` is an argument of the operations that
-- call it. A tenant's custom domains are a list, which is empty where the field is not one.
pub mod Lookups
mod Examples
use sj_cloud.Prelude.{
  str_eq, if◌then◌else◌, ℕ, ◌+◌, String, Dict, lookup, put, remove, List, [], ◌∷◌, map, length,
  Option, none, some,
}
use sj_cloud.Tenant.Lifecycle.{TenantState, active, suspended, failed, archived, provisioning}

pub record TenantConfig : Type 0 where
  pub tenant_id : String
  pub slug : Option String
  pub primary_domain : Option String
  pub custom_domains : List String
  pub status : TenantState

pub record Cache : Type 0 where
  pub tenants_by_id : Dict TenantConfig
  pub tenants_by_slug : Dict TenantConfig
  pub tenants_by_domain : Dict TenantConfig

abbrev pub no_cache : Cache
no_cache = record { tenants_by_id = []; tenants_by_slug = []; tenants_by_domain = [] }

-- a field that is tested for being there; an empty text is not
abbrev pub truthy : Option String → Option String
truthy none = none
truthy (some t) = if str_eq t "" then none else some t

-- `if (key) map.set(key, tenant)`
abbrev pub put_if : Option String → TenantConfig → Dict TenantConfig → Dict TenantConfig
put_if none t m = m
put_if (some key) t m = put key t m

abbrev pub remove_if : Option String → Dict TenantConfig → Dict TenantConfig
remove_if none m = m
remove_if (some key) m = remove key m

-- the loops over the custom domains
unfoldable pub put_all : List String → TenantConfig → Dict TenantConfig → Dict TenantConfig
put_all [] t m = m
put_all (key ∷ keys) t m = put_all keys t (put key t m)

unfoldable pub remove_all : List String → Dict TenantConfig → Dict TenantConfig
remove_all [] m = m
remove_all (key ∷ keys) m = remove_all keys (remove key m)

abbrev pub lowered : (String → String) → Option String → Option String
lowered lower none = none
lowered lower (some t) = some (lower t)

module _ (lower : String → String) where
  unfoldable pub set : TenantConfig → Cache → Cache
  set t c = record {
    tenants_by_id = put t.tenant_id t c.tenants_by_id;
    tenants_by_slug = put_if (truthy t.slug) t c.tenants_by_slug;
    tenants_by_domain =
        put_all (map lower t.custom_domains) t
          (put_if (lowered lower (truthy t.primary_domain)) t c.tenants_by_domain);
  }

  unfoldable pub get_by_domain : String → Cache → Option TenantConfig
  get_by_domain domain c =
      if str_eq domain "" then none else lookup (lower domain) c.tenants_by_domain

  abbrev pub dropped : Option TenantConfig → String → Cache → Cache
  dropped none id c = c
  dropped (some t) id c = record {
    tenants_by_id = remove id c.tenants_by_id;
    tenants_by_slug = remove_if (truthy t.slug) c.tenants_by_slug;
    tenants_by_domain =
        remove_all (map lower t.custom_domains)
          (remove_if (lowered lower (truthy t.primary_domain)) c.tenants_by_domain);
  }

  unfoldable pub delete : String → Cache → Cache
  delete id c = dropped (lookup id c.tenants_by_id) id c

unfoldable pub get : String → Cache → Option TenantConfig
get id c = lookup id c.tenants_by_id

unfoldable pub get_by_slug : String → Cache → Option TenantConfig
get_by_slug slug c = lookup slug c.tenants_by_slug

unfoldable pub clear : Cache → Cache
clear c = no_cache

abbrev pub values : Dict TenantConfig → List TenantConfig
values [] = []
values ((_, t) ∷ m) = t ∷ values m

unfoldable pub get_all : Cache → List TenantConfig
get_all c = values c.tenants_by_id

pub record Summary : Type 0 where
  pub total : ℕ
  pub active : ℕ
  pub suspended : ℕ
  pub failed : ℕ
  pub archived : ℕ
  pub provisioning : ℕ
  pub other : ℕ

-- the `switch` of `getSummary`
abbrev pub counted : TenantState → Summary → Summary
counted TenantState.active s = record s { active = s.active + 1 }
counted TenantState.suspended s = record s { suspended = s.suspended + 1 }
counted TenantState.failed s = record s { failed = s.failed + 1 }
counted TenantState.archived s = record s { archived = s.archived + 1 }
counted TenantState.provisioning s = record s { provisioning = s.provisioning + 1 }
counted _ s = record s { other = s.other + 1 }

unfoldable pub summed : List TenantConfig → Summary → Summary
summed [] s = s
summed (t ∷ ts) s = summed ts (counted t.status s)

unfoldable pub get_summary : Cache → Summary
unfolding get_all
get_summary c = summed (get_all c) (record {
  total = length (get_all c);
  active = 0;
  suspended = 0;
  failed = 0;
  archived = 0;
  provisioning = 0;
  other = 0;
})
