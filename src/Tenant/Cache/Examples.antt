-- ===== src/Tenant/Cache/Examples.antt =====
-- The theorems of the cache at concrete inputs. The texts are in lower case already.
use sj_cloud.Prelude.{String, [], ◌∷◌, some, ◌≡◌, if◌then◌else◌}
use sj_cloud.Tenant.Lifecycle.{active}
use sj_cloud.Tenant.Cache.{TenantConfig, Cache, no_cache, set, get_by_domain}
use sj_cloud.Tenant.Cache.Lookups.{is_domain, get_by_domain-set}

abbrev lower : String → String
lower t = t

abbrev acme : TenantConfig
acme = record {
  tenant_id = "acme";
  slug = some "acme";
  primary_domain = some "acme.test";
  custom_domains = "shop.test" ∷ [];
  status = active;
}

abbrev moved : TenantConfig
moved = record acme { primary_domain = some "acme.example" }

abbrev stored : Cache
stored = set lower acme no_cache

get_by_domain-set_example : get_by_domain lower "shop.test" (set lower acme no_cache) ≡ (
    if is_domain lower acme "shop.test"
    then some acme
    else get_by_domain lower "shop.test" no_cache)
get_by_domain-set_example = get_by_domain-set lower acme "shop.test" no_cache
