-- ===== src/Tenant/Policies/Examples.antt =====
-- The theorems of the policies at concrete inputs.
use sj_cloud.Prelude.{◌≡◌, refl, true, [], ◌∷◌, none, some, All}
use sj_cloud.Tenant.Lifecycle.{active}
use sj_cloud.Tenant.Policies.{Tenant, Params, Patterns, Question, quota_policy}
use sj_cloud.Tenant.Policies.Verdicts.{IsApart, routing_policy-IsApart, routing_policy_takes}

abbrev acme : Tenant
acme = record {
  tenant_id = "acme";
  status = active;
  primary_domain = "acme.sj-cloud.test";
  custom_domains = "shop.test" ∷ [];
}

abbrev params : Params
params = record {
  plan = none;
  memory = some 1024;
  jwt_secret = none;
  db_password = none;
  secret_type = "";
  primary_domain = some "shop.test";
  custom_domains = [];
  backup_schedule = none;
  retention_days = some 30;
}

abbrev patterns : Patterns
patterns = record { is_id = λ t. true; is_domain = λ t. true; is_cron = λ t. true }

abbrev question : Question
question = record {
  action = "provision";
  tenant_id = "beta";
  params = params;
  tenants = acme ∷ [];
  patterns = patterns;
}

abbrev beta : Tenant
beta = record acme { tenant_id = "beta" }

quota_passes : quota_policy question ≡ none
unfolding quota_policy
quota_passes = refl

routing_policy-IsApart_example : All (IsApart "beta" "shop.test" []) (acme ∷ [])
routing_policy-IsApart_example =
    routing_policy-IsApart question refl
      (routing_policy_takes question acme "shop.test" refl refl refl refl refl refl refl)
