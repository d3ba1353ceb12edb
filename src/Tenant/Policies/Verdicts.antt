-- ===== src/Tenant/Policies/Verdicts.antt =====
-- What the policies let through.
use sj_cloud.Prelude.{
  ℕ, ◌+◌, ◌≡◌, ◌≤◌, refl, arith, String, Bool, true, false, not, List, [], ◌∷◌, ◌++◌, none, some,
  count, str_eq, leb, All, Bool-cases, Option-cases, inl, inr, ◌⊎◌, ap,
}
use sj_cloud.Tenant.Policies.{
  Tenant, Patterns, Question, Verdict, deny_if, is_active, max_active_tenants, quota_policy,
  routing_policy, primary_of, formats, owns, customs_free, no_conflict, evaluate,
}

-- no policy of a list denies
abbrev pub Allows : Question → List (Question → Verdict) → Type 0
Allows q = All (λ p. p q ≡ none)

-- A question either passes every policy, and then nothing is thrown and no denial is counted; or
-- there is a first policy that denies, its reason is thrown, and one denial is counted.
pub evaluate-cases :
    (policies : List (Question → Verdict)) (q : Question) (denials : ℕ)
    → (Allows q policies × (evaluate policies q denials ≡ (denials, none)))
      ⊎ ((front : List (Question → Verdict)) × (p : Question → Verdict) × (back : List
            (Question → Verdict))
          × (reason : String) × (policies ≡ front ++ p ∷ back)
          × Allows q front
          × (p q ≡ some reason)
          × (evaluate policies q denials ≡ (denials + 1, some reason)))
unfolding evaluate
evaluate-cases [] q denials = inl (tt, refl)
evaluate-cases (p ∷ rest) q denials = elim (Option-cases (p q)) [
  | inr (reason, e) ↦ inr ([], p, rest, reason, refl, tt, e, rw e refl)
  | inl e ↦ elim (evaluate-cases rest q denials) [
    | inl (a, k) ↦ inl ((e, a), rw (e, k) refl)
    | inr (front, p2, back, reason, s, a, d, k) ↦
        inr (p ∷ front, p2, back, reason, ap (λ l. p ∷ l) s, (e, a), d, rw (e, k) refl)
  ]
]

deny_if-none :
    (b : Bool) (reason : String) (rest : Verdict)
    → deny_if b reason rest ≡ none
    → (b ≡ false) × (rest ≡ none)
deny_if-none true reason rest h = ground (arith, h)
deny_if-none false reason rest h = (refl, h)

-- A provision that the quota policy lets through leaves room for one more active tenant: with it,
-- at most 20 are active.
pub quota_policy-room :
    (q : Question) (t : Tenant)
    → str_eq q.action "provision" ≡ true
    → quota_policy q ≡ none
    → count is_active (t ∷ q.tenants) ≤ 20
unfolding quota_policy
quota_policy-room q t a h =
    let k =
      deny_if-none (leb max_active_tenants (count is_active q.tenants))
        "Global active tenant quota exceeded" _ (rw a at h) in
    ground (arith, k.0)

formats-none :
    (p : Patterns) (ds : List String) (rest : Verdict) → formats p ds rest ≡ none → rest ≡ none
formats-none p [] rest h = h
formats-none p (d ∷ ds) rest h =
    formats-none p ds rest (deny_if-none (not (p.is_domain d)) _ (formats p ds rest) h).1

customs_free-none :
    (t : Tenant) (ds : List String) (rest : Verdict)
    → customs_free t ds rest ≡ none
    → All (λ d. owns t d ≡ false) ds × (rest ≡ none)
customs_free-none t [] rest h = (tt, h)
customs_free-none t (d ∷ ds) rest h =
    let k = deny_if-none (owns t d) _ (customs_free t ds rest) h in
    let m = customs_free-none t ds rest k.1 in ((k.0, m.0), m.1)

-- a tenant is the same one, or shares neither the primary domain nor a custom one
abbrev pub IsApart : String → String → List String → Tenant → Type 0
IsApart id primary customs t =
    (str_eq t.tenant_id id ≡ true)
    ⊎ ((str_eq t.primary_domain primary ≡ false) × All (λ d. owns t d ≡ false) customs)

no_conflict-none :
    (id primary : String) (customs : List String) (tenants : List Tenant)
    → no_conflict id primary customs tenants ≡ none
    → All (IsApart id primary customs) tenants
no_conflict-none id primary customs [] h = tt
no_conflict-none id primary customs (t ∷ rest) h = elim (Bool-cases (str_eq t.tenant_id id)) [
  | inl e ↦ (inl e, no_conflict-none id primary customs rest (rw e at h))
  | inr e ↦
      let k = deny_if-none (str_eq t.primary_domain primary) _ _ (rw e at h) in
      let m = customs_free-none t customs (no_conflict id primary customs rest) k.1 in
      (inr (k.0, m.0), no_conflict-none id primary customs rest m.1)
]

-- A provision that the routing policy lets through: no other tenant has its primary domain as the
-- primary one, and none has one of its custom domains as a primary or a custom one.
pub routing_policy-IsApart :
    (q : Question)
    → str_eq q.action "provision" ≡ true
    → routing_policy q ≡ none
    → All
        (IsApart q.tenant_id
          (primary_of q.tenant_id q.params.primary_domain)
          q.params.custom_domains)
        q.tenants
unfolding routing_policy
routing_policy-IsApart q a h =
    let primary = primary_of q.tenant_id q.params.primary_domain in
    let rest = no_conflict q.tenant_id primary q.params.custom_domains q.tenants in
    let k =
      deny_if-none (not (q.patterns.is_domain primary)) "Primary domain format is invalid"
        (formats q.patterns q.params.custom_domains rest) (rw a at h) in
    no_conflict-none q.tenant_id primary q.params.custom_domains q.tenants
      (formats-none q.patterns q.params.custom_domains rest k.1)

-- The routing policy lets a provision take a custom domain of another tenant as its primary domain:
-- with one registered tenant, another one with another primary domain, it answers the same
-- whatever the custom domains of that tenant are, and lets the provision through if the primary
-- domain has the format and no custom domain is asked for.
pub routing_policy_takes :
    (q : Question) (t : Tenant) (domain : String)
    → str_eq q.action "provision" ≡ true
    → q.tenants ≡ t ∷ []
    → str_eq t.tenant_id q.tenant_id ≡ false
    → str_eq t.primary_domain domain ≡ false
    → primary_of q.tenant_id q.params.primary_domain ≡ domain
    → q.patterns.is_domain domain ≡ true
    → q.params.custom_domains ≡ []
    → routing_policy q ≡ none
unfolding routing_policy
routing_policy_takes q t domain a s i p d f c = rw (a, d, f, c, s, i, p) refl
