-- ===== src/Environments/Gated.antt =====
-- The approval that a promotion to production needs, call by call.
use sj_cloud.Prelude.{
  ℕ, ◌≡◌, refl, arith, String, Bool, true, false, not, ◌||◌, Option, none, some, Dict, lookup, put,
  lookup-put, lookup-put_self, str_eq, eq_iff, Result, ok, Bool-cases, Option-cases, inl, inr, ◌⊎◌,
  sym, ap,
}
use sj_cloud.Application.Engine.{Failure}
use sj_cloud.Application.Deploying.{Outside, Job, run_deployment}
use sj_cloud.Environments
use sj_cloud.Environments.{
  Clock, View, Environment, Entry, entry, viewed, environment, named, nameless, missing, TypeError,
  get_environment, can_deploy, Approval, Approvals, ApprovalStatus, approved, rejected,
  ApprovalError, request_approval, submit_approval, decide, decided, processed, freeze, unfreeze,
  Window,
}
use sj_cloud.Environments.Promotions.{
  PromotionStatus, Promotion, Site, Request, new_promotion, with_status, status_of_run,
  execute_promotion, started, success, failed,
}

-- a deployment of the promotion has been run
abbrev pub has_run : PromotionStatus → Bool
has_run success = true
has_run failed = true
has_run _ = false

abbrev pub is_approval : ApprovalStatus → Bool
is_approval approved = true
is_approval _ = false

abbrev pub is_approved : Option Approval → Bool
is_approved none = false
is_approved (some a) = is_approval a.status

abbrev pub is_allowed : (String → String) → Option Promotion → Option Approval → Bool
is_allowed lower none a = true
is_allowed lower (some p) a =
    not (str_eq (lower p.target_env) "production") || not (has_run p.status) || is_approved a

-- a promotion to production that has run has an approval that says so
abbrev pub IsGated : (String → String) → Site → Type 0
IsGated lower s =
    (id : String) → is_allowed lower (lookup id s.promotions) (lookup id s.approvals) ≡ true

processed-ok :
    (status : ApprovalStatus) (m n : Approvals)
    → processed status m ≡ ok n
    → (is_approval status ≡ false) × (n ≡ m)
processed-ok Environments.pending m n h = (refl, ground (arith, h))
processed-ok approved m n h = ground (arith, h)
processed-ok rejected m n h = ground (arith, h)

abbrev required : Result TypeError (Option View) → Bool
required (ok (some v)) = v.environment.requires_approval
required _ = true

-- what a decision that is accepted finds and writes
pub submit_approval-ok :
    (id approver : String) (now : ℕ) (status : ApprovalStatus) (m n : Approvals)
    → submit_approval id approver now status m ≡ ok n
    → (a : Approval) × (lookup id m ≡ some a)
      × (is_approved (some a) ≡ false)
      × (n ≡ decided id approver now status a m)
unfolding submit_approval
submit_approval-ok id approver now status m n h = elim (Option-cases (lookup id m)) [
  | inl e ↦ ground (arith, rw e at h)
  | inr (a, e) ↦
      let k = processed-ok a.status (decided id approver now status a m) n (rw e at h) in
      (a, e, k.0, k.1)
]

-- the environment `production` requires an approval
pub production_requires_approval :
    (lower : String → String) (clock : Clock) (s : Site) (name : String) (v : View)
    → get_environment lower clock s.freezes s.window name ≡ ok (some v)
    → v.environment.requires_approval ≡ false
    → str_eq (lower name) "production" ≡ false
unfolding get_environment entry
production_requires_approval lower clock s name v h f =
    elim (Bool-cases (str_eq (lower name) "production")) [
      | inr e ↦ e
      | inl e ↦
          let q = (eq_iff (lower name) "production").0 e in
          let k = ap required (rw q at h) in ground (arith, k, f)
    ]

module _ (lower : String → String) where
  pub put-IsGated :
      (id : String) (p : Promotion) (m : Dict Promotion) (n : Approvals)
      → ((j : String) → is_allowed lower (lookup j m) (lookup j n) ≡ true)
      → is_allowed lower (some p) (lookup id n) ≡ true
      → (j : String) → is_allowed lower (lookup j (put id p m)) (lookup j n) ≡ true
  put-IsGated id p m n g h j = elim (Bool-cases (str_eq id j)) [
    | inr e ↦ rw (lookup-put id j p m, e) (g j)
    | inl e ↦ rw (lookup-put id j p m, e, sym ((eq_iff id j).0 e)) h
  ]

  pub put_approval-IsGated :
      (id : String) (a : Approval) (m : Dict Promotion) (n : Approvals)
      → ((j : String) → is_allowed lower (lookup j m) (lookup j n) ≡ true)
      → is_allowed lower (lookup id m) (some a) ≡ true
      → (j : String) → is_allowed lower (lookup j m) (lookup j (put id a n)) ≡ true
  put_approval-IsGated id a m n g h j = elim (Bool-cases (str_eq id j)) [
    | inr e ↦ rw (lookup-put id j a n, e) (g j)
    | inl e ↦ rw (lookup-put id j a n, e, sym ((eq_iff id j).0 e)) h
  ]

  is_allowed_run :
      (p : Promotion) (a : Option Approval) (r : Option Failure)
      → not (str_eq (lower p.target_env) "production") || is_approved a ≡ true
      → is_allowed lower (some (with_status (status_of_run r) p)) a ≡ true
  is_allowed_run p a none h = ground (arith, h)
  is_allowed_run p a (some e) h = ground (arith, h)

  pub execute_promotion-IsGated :
      (id : String) (now : ℕ) (o : Outside) (s : Site) (p : Promotion)
      → lookup id s.promotions ≡ some p
      → not (str_eq (lower p.target_env) "production") || is_approved (lookup id s.approvals) ≡ true
      → IsGated lower s
      → IsGated lower (execute_promotion id now o s).0
  unfolding execute_promotion
  execute_promotion-IsGated id now o s p h k g =
      let job : Job = record {
        app_id = p.app_id;
        tenant_id = p.tenant_id;
        release_id = p.release_id;
        now = now;
      } in
      let r = (run_deployment job o s.world).1 in
      rw h (
        put-IsGated id (with_status (status_of_run r) p) s.promotions s.approvals g
          (is_allowed_run p (lookup id s.approvals) r k))

  pub allowed_by :
      (id : String) (p : Option Promotion) (a : Approval)
      → is_approved (some a) ≡ true
      → is_allowed lower p (some a) ≡ true
  allowed_by id none a h = refl
  allowed_by id (some p) a h = ground (arith, h)

  pub still_allowed :
      (p : Option Promotion) (a b : Approval)
      → is_approved (some a) ≡ false
      → is_allowed lower p (some a) ≡ true
      → is_allowed lower p (some b) ≡ true
  still_allowed none a b h k = refl
  still_allowed (some p) a b h k = ground (arith, h, k)

  pub missing-IsGated :
      (id : String) (now : ℕ) (o : Outside) (s : Site)
      → lookup id s.promotions ≡ none
      → IsGated lower s
      → IsGated lower (execute_promotion id now o s).0
  unfolding execute_promotion
  missing-IsGated id now o s m g = rw m g

  pub begin-IsGated :
      (id : String) (now : ℕ) (o : Outside) (q : Request) (b : Bool) (s : Site)
      → (b ≡ true) ⊎ (str_eq (lower q.target_env) "production" ≡ false)
      → IsGated lower s
      → IsGated lower (started id now o q b s).0
  unfolding request_approval
  begin-IsGated id now o q true s k g =
      let p = new_promotion q in
      put_approval-IsGated id _ (put id p s.promotions) s.approvals
        (put-IsGated id p s.promotions s.approvals g (ground arith))
        (rw (lookup-put_self id p s.promotions) (ground arith))
  begin-IsGated id now o q false s k g =
      let p = new_promotion q in
      let t : Site = record s { promotions = put id p s.promotions } in
      execute_promotion-IsGated id now o t p (lookup-put_self id p s.promotions) (ground (arith, k))
        (put-IsGated id p s.promotions s.approvals g (ground arith))
