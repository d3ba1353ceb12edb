-- ===== src/Application/Releases/Ledger.antt =====
-- What a release that is created does to the ledgers.
use sj_cloud.Prelude.{
  ℕ, ◌≡◌, refl, arith, String, true, false, ◌&&◌, List, [], ◌∷◌, ◌++◌, none, some, lookup-put,
  lookup-put_self, find, str_eq, eq_iff, Result, ok, err, Bool-cases, inl, inr, ap, ◌∙◌,
  str_eq_self, Result-cases, sym,
}
use sj_cloud.Application.Releases.{
  Release, Request, new_release, validate, Ledgers, get_releases, record_release, create_release,
  last, get_latest_release, has_id, find_release,
}

last-append : (l : List Release) (r : Release) → last (l ++ (r ∷ [])) ≡ some r
last-append [] r = refl
last-append (s ∷ []) r = refl
last-append (s ∷ t ∷ rest) r = last-append (t ∷ rest) r

pub get_releases-record_release_same :
    (tenant app : String) (r : Release) (l : Ledgers)
    → get_releases tenant app (record_release tenant app r l)
      ≡ get_releases tenant app l ++ (r ∷ [])
unfolding get_releases record_release
get_releases-record_release_same tenant app r l = simp (lookup-put_self)

pub get_releases-record_release_other :
    (tenant app t a : String) (r : Release) (l : Ledgers)
    → str_eq tenant t && str_eq app a ≡ false
    → get_releases t a (record_release tenant app r l) ≡ get_releases t a l
unfolding get_releases record_release
get_releases-record_release_other tenant app t a r l h = elim (Bool-cases (str_eq tenant t)) [
  | inr e ↦ simp (lookup-put, e)
  | inl e ↦
      let same = (eq_iff tenant t).0 e in
      let other : str_eq app a ≡ false = ground (arith, h, e) in
      rw⁻¹ same (simp (lookup-put_self, lookup-put, other))
]

find-append :
    (id : String) (l : List Release) (r : Release)
    → find (has_id id) l ≡ none
    → has_id id r ≡ true
    → find (has_id id) (l ++ (r ∷ [])) ≡ some r
find-append id [] r h k = rw k refl
find-append id (s ∷ l) r h k = elim (Bool-cases (has_id id s)) [
  | inl e ↦ ground (arith, h, e)
  | inr e ↦ rw e (find-append id l r (ground (arith, h, e)) k)
]

find-append_kept :
    (id : String) (l : List Release) (r s : Release)
    → find (has_id id) l ≡ some s
    → find (has_id id) (l ++ (r ∷ [])) ≡ some s
find-append_kept id [] r s h = ground arith
find-append_kept id (x ∷ l) r s h = ground (arith, h, find-append_kept id l r s)

ok-pair {ℓ κ μ} :
    {E : Type ℓ} {A : Type κ} {B : Type μ} (a c : A) (b d : B)
    → ◌≡◌ {A = Result E (A × B)} (ok (a, b)) (ok (c, d))
    → (a ≡ c) × (b ≡ d)
ok-pair a c b d h =
    (ap (λ x. elim x [ ok p ↦ p.0 | err e ↦ a ]) h, ap (λ x. elim x [ ok p ↦ p.1 | err e ↦ b ]) h)

-- what a call that does not throw has written
created :
    (digest : Release → String) (now : ℕ) (q : Request) (l m : Ledgers) (r : Release)
    → create_release digest now q l ≡ ok (r, m)
    → (has_id r.release_id r ≡ true) × (m ≡ record_release q.tenant_id q.app_id r l)
unfolding create_release
created digest now q l m r h = elim (Result-cases (validate (new_release digest now q))) [
  | inl (u, e) ↦
      let k =
        ok-pair (new_release digest now q) r
          (record_release q.tenant_id q.app_id (new_release digest now q) l) m (rw e at h) in
      (str_eq_self r.release_id, sym k.1 ∙ ap (λ x. record_release q.tenant_id q.app_id x l) k.0)
  | inr (u, e) ↦ ground (arith, rw e at h)
]

-- the release that a call which does not throw gives
pub create_release-new_release :
    (digest : Release → String) (now : ℕ) (q : Request) (l m : Ledgers) (r : Release)
    → create_release digest now q l ≡ ok (r, m)
    → new_release digest now q ≡ r
unfolding create_release
create_release-new_release digest now q l m r h =
    elim (Result-cases (validate (new_release digest now q))) [
      | inl (u, e) ↦
          (ok-pair (new_release digest now q) r
            (record_release q.tenant_id q.app_id (new_release digest now q) l) m (rw e at h)).0
      | inr (u, e) ↦ ground (arith, rw e at h)
    ]

-- A release that is created is the latest of its application, and where no earlier release of the
-- application has its identifier, it is found by it.
pub find_release-create_release :
    (digest : Release → String) (now : ℕ) (q : Request) (l m : Ledgers) (r : Release)
    → create_release digest now q l ≡ ok (r, m)
    → find_release q.tenant_id q.app_id r.release_id l ≡ none
    → (get_latest_release q.tenant_id q.app_id m ≡ some r)
      × (find_release q.tenant_id q.app_id r.release_id m ≡ some r)
unfolding get_latest_release find_release
find_release-create_release digest now q l m r h fresh =
    let k = created digest now q l m r h in
    let old = get_releases q.tenant_id q.app_id l in
    rw (k.1, get_releases-record_release_same q.tenant_id q.app_id r l)
      (last-append old r, find-append r.release_id old r fresh k.0)

-- What is found by an identifier before a release is created is found by it afterwards too, for the
-- same application and for any other.
pub find_release_kept :
    (digest : Release → String) (now : ℕ) (q : Request) (l m : Ledgers) (r : Release)
    → (tenant app id : String) (s : Release) → create_release digest now q l ≡ ok (r, m)
    → find_release tenant app id l ≡ some s
    → find_release tenant app id m ≡ some s
unfolding find_release
find_release_kept digest now q l m r tenant app id s h f =
    let k = created digest now q l m r h in
    elim (Bool-cases (str_eq q.tenant_id tenant && str_eq q.app_id app)) [
      | inr e ↦ rw (k.1, get_releases-record_release_other q.tenant_id q.app_id tenant app r l e) f
      | inl e ↦
          let t : q.tenant_id ≡ tenant = (eq_iff q.tenant_id tenant).0 (ground (arith, e)) in
          let a : q.app_id ≡ app = (eq_iff q.app_id app).0 (ground (arith, e)) in
          rw (k.1, sym t, sym a, get_releases-record_release_same q.tenant_id q.app_id r l)
            (find-append_kept id (get_releases q.tenant_id q.app_id l) r s (rw (t, a) f))
    ]
