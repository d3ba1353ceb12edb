-- ===== src/Tenant/Policies.antt =====
-- platform/tenant-manager/policies: policy-engine.js and the five policies that it registers. The
-- tests of regular expressions are arguments, a memory limit is what `parseInt` gives, and a
-- secret is its length.
pub mod Verdicts
mod Examples
use Prim.Native.String.{◌++◌ as join}
use sj_cloud.Prelude.{
  ℕ, ◌+◌, String, Bool, true, false, not, ◌&&◌, ◌||◌, List, [], ◌∷◌, Option, none, some, count,
  some_of, str_eq, ltb, leb, ◌==◌, if◌then◌else◌,
}
use sj_cloud.Tenant.Lifecycle.{TenantState, active, suspended, archived, same}

-- a registered tenant
pub record Tenant : Type 0 where
  pub tenant_id : String
  pub status : TenantState
  pub primary_domain : String
  pub custom_domains : List String

pub record Params : Type 0 where
  pub plan : Option String
  pub memory : Option ℕ
  pub jwt_secret : Option ℕ
  pub db_password : Option ℕ
  pub secret_type : String
  pub primary_domain : Option String
  pub custom_domains : List String
  pub backup_schedule : Option String
  pub retention_days : Option ℕ

-- the tests of the regular expressions
pub record Patterns : Type 0 where
  pub is_id : String → Bool
  pub is_domain : String → Bool
  pub is_cron : String → Bool

-- what a policy reads, and its answer: the reason of a denial
pub record Question : Type 0 where
  pub action : String
  pub tenant_id : String
  pub params : Params
  pub tenants : List Tenant
  pub patterns : Patterns

abbrev pub Verdict : Type 0
Verdict = Option String

-- a test whose success denies, before the rest
abbrev pub deny_if : Bool → String → Verdict → Verdict
deny_if true reason rest = some reason
deny_if false reason rest = rest

abbrev pub is_active : Tenant → Bool
is_active t = same t.status active

abbrev pub max_active_tenants : ℕ
max_active_tenants = 20

-- `plan === 'standard'`, the default
abbrev pub is_standard : Option String → Bool
is_standard none = true
is_standard (some p) = str_eq p "" || str_eq p "standard"

-- `limit && limit > bound`, and `secret && secret.length < bound`
abbrev pub exceeds : Option ℕ → ℕ → Bool
exceeds none bound = false
exceeds (some n) bound = ltb bound n

abbrev pub is_short : Option ℕ → ℕ → Bool
is_short none bound = false
is_short (some n) bound = not (n == 0) && ltb n bound

-- `QuotaPolicy.evaluate`
unfoldable pub quota_policy : Question → Verdict
quota_policy q =
    if str_eq q.action "provision"
    then deny_if (leb max_active_tenants (count is_active q.tenants))
        "Global active tenant quota exceeded"
        (deny_if (is_standard q.params.plan && exceeds q.params.memory 2048)
          "Standard plan tenants cannot exceed 2048MB of memory" none)
    else none

-- `getTenant`
abbrev pub status_of : String → List Tenant → Option TenantState
status_of id [] = none
status_of id (t ∷ rest) =
    let other = status_of id rest in if str_eq t.tenant_id id then some t.status else other

abbrev pub is_in : Option TenantState → TenantState → Bool
is_in none s = false
is_in (some t) s = same t s

abbrev pub is_other : Option TenantState → Bool
is_other none = false
is_other (some t) = not (same t archived) && not (same t suspended)

-- `LifecyclePolicy.evaluate`
unfoldable pub lifecycle_policy : Question → Verdict
lifecycle_policy q =
    let status = status_of q.tenant_id q.tenants in
    deny_if (str_eq q.action "start" && is_in status active) "Tenant is already ACTIVE" (
      deny_if (str_eq q.action "stop" && is_in status suspended) "Tenant is already SUSPENDED" (
        deny_if (str_eq q.action "archive" && is_in status archived) "Tenant is already ARCHIVED" (
          deny_if (str_eq q.action "restore" && is_other status)
            "Only SUSPENDED or ARCHIVED tenants can be restored" none)))

-- `SecurityPolicy.evaluate`
unfoldable pub security_policy : Question → Verdict
security_policy q =
    if str_eq q.action "provision"
    then deny_if (not (q.patterns.is_id q.tenant_id)) "Tenant ID format is invalid" (
        deny_if (is_short q.params.jwt_secret 32) "JWT secret must be at least 32 characters long" (
          deny_if (is_short q.params.db_password 12)
            "Database password must be at least 12 characters long" none))
    else deny_if
        (str_eq q.action "rotate-secrets"
          && (str_eq q.params.secret_type "jwt" && is_short q.params.jwt_secret 32))
        "New JWT secret must be at least 32 characters long" none

-- `params.primary_domain || …`
abbrev pub primary_of : String → Option String → String
primary_of id none = join id ".sj-cloud.test"
primary_of id (some d) = if str_eq d "" then join id ".sj-cloud.test" else d

-- the custom domains in order, up to the first that fails
abbrev pub formats : Patterns → List String → Verdict → Verdict
formats p [] rest = rest
formats p (d ∷ ds) rest =
    let more = formats p ds rest in
    deny_if (not (p.is_domain d)) "Custom domain format is invalid" more

abbrev pub owns : Tenant → String → Bool
owns t d = str_eq t.primary_domain d || some_of (λ x. str_eq x d) t.custom_domains

abbrev pub customs_free : Tenant → List String → Verdict → Verdict
customs_free t [] rest = rest
customs_free t (d ∷ ds) rest =
    let more = customs_free t ds rest in deny_if (owns t d) "Domain is already in use" more

-- the loop over the registered tenants
abbrev pub no_conflict : String → String → List String → List Tenant → Verdict
no_conflict id primary customs [] = none
no_conflict id primary customs (t ∷ rest) =
    let more = no_conflict id primary customs rest in
    if str_eq t.tenant_id id
    then more
    else deny_if (str_eq t.primary_domain primary) "Primary domain conflicts with another tenant"
        (customs_free t customs more)

-- `RoutingPolicy.evaluate`
unfoldable pub routing_policy : Question → Verdict
routing_policy q =
    let primary = primary_of q.tenant_id q.params.primary_domain in
    if str_eq q.action "provision" || str_eq q.action "update-domains"
    then deny_if (not (q.patterns.is_domain primary)) "Primary domain format is invalid" (
        formats q.patterns q.params.custom_domains
          (no_conflict q.tenant_id primary q.params.custom_domains q.tenants))
    else none

abbrev pub is_bad_schedule : Patterns → Option String → Bool
is_bad_schedule p none = false
is_bad_schedule p (some t) = not (str_eq t "") && not (p.is_cron t)

abbrev pub is_bad_retention : Option ℕ → Bool
is_bad_retention none = false
is_bad_retention (some days) = ltb days 1 || ltb 365 days

-- `BackupPolicy.evaluate`
unfoldable pub backup_policy : Question → Verdict
backup_policy q =
    if str_eq q.action "provision"
    then deny_if (is_bad_schedule q.patterns q.params.backup_schedule)
        "Backup schedule cron format is invalid"
        (deny_if (is_bad_retention q.params.retention_days)
          "Backup retention days must be between 1 and 365" none)
    else none

abbrev pub default_policies : List (Question → Verdict)
default_policies =
    quota_policy ∷ lifecycle_policy ∷ security_policy ∷ routing_policy ∷ backup_policy ∷ []

-- the engine's answer, with its count of denials
abbrev pub Answer : Type 0
Answer = ℕ × Verdict

abbrev pub answered : Verdict → ℕ → Answer → Answer
answered none denials rest = rest
answered (some reason) denials rest = (denials + 1, some reason)

-- `evaluate`: the policies in order, up to the first denial, which is counted and thrown
unfoldable pub evaluate : List (Question → Verdict) → Question → ℕ → Answer
evaluate [] q denials = (denials, none)
evaluate (p ∷ rest) q denials = answered (p q) denials (evaluate rest q denials)
