-- ===== src/Environments/Refusals.antt =====
-- What lets a promotion begin, and what no longer stops it.
use sj_cloud.Prelude.{
  ℕ, ◌≡◌, refl, arith, String, true, false, not, ◌||◌, Option, none, some, lookup, put, str_eq,
  Result, ok, Bool-cases, Option-cases, Result-cases, inl, inr, ◌⊎◌, sym, ap, ◌∙◌,
}
use sj_cloud.Environments.{
  Clock, View, Entry, entry, viewed, named, nameless, missing, TypeError, get_environment,
  can_deploy, is_frozen, is_window_open, Freezes, Window, approved, submit_approval,
}
use sj_cloud.Application.Deploying.{Outside}
use sj_cloud.Environments.Promotions.{
  PromotionError, Site, Request, new_promotion, execute_promotion, start_promotion,
  approve_promotion, is_backward, not_below, bad_name, invalid_target, backward, closed,
}

abbrev view_or : View → Result TypeError (Option View) → View
view_or d (ok (some v)) = v
view_or d _ = d

not_below-none : (o : Option ℕ) → not_below o none ≡ false
not_below-none none = refl
not_below-none (some n) = refl

-- what the view of an environment tells
view-tells :
    (lower : String → String) (now : Clock) (f : Freezes) (w : Window) (e : Entry) (v : View)
    → viewed lower now f w e ≡ ok (some v)
    → (v.frozen ≡ is_frozen lower v.environment.name f) × (v.window_open ≡ is_window_open now w)
view-tells lower now f w missing v h = ground (arith, h)
view-tells lower now f w nameless v h = ground (arith, h)
view-tells lower now f w (named e) v h =
    let d : View = record {
      environment = e;
      frozen = is_frozen lower e.name f;
      window_open = is_window_open now w;
    } in
    let q = sym (ap (view_or d) h) in
    (
      ap (λ x. x.frozen) q ∙ ap (λ x. is_frozen lower x f) (sym (ap (λ x. x.environment.name) q)),
      ap (λ x. x.window_open) q,
    )

can_deploy-tells :
    (lower : String → String) (name : String) (v : View)
    → can_deploy lower name v ≡ true
    → (v.frozen ≡ false) × (not (str_eq (lower name) "production") || v.window_open ≡ true)
unfolding can_deploy
can_deploy-tells lower name v h = (ground (arith, h), ground (arith, h))

found_view :
    (lower : String → String) (clock : Clock) (s : Site) (name : String) (v : View)
    → get_environment lower clock s.freezes s.window name ≡ ok (some v)
    → (v.frozen ≡ is_frozen lower v.environment.name s.freezes)
      × (v.window_open ≡ is_window_open clock s.window)
unfolding get_environment
found_view lower clock s name v h =
    view-tells lower clock s.freezes s.window (entry (lower name)) v h

-- the guards of a start, on what is found under the two names
abbrev pub Passes : (String → String) → Clock → Site → Request → Type 0
Passes lower clock s q =
    (source : Option View) × (target : View) × (get_environment lower clock s.freezes s.window
        q.source_env
      ≡ ok source)
    × (get_environment lower clock s.freezes s.window q.target_env ≡ ok (some target))
    × (is_backward source target ≡ false)
    × (is_frozen lower target.environment.name s.freezes ≡ false)
    × (not (str_eq (lower q.target_env) "production") || is_window_open clock s.window ≡ true)

-- A start of a promotion either throws and changes nothing; or the target is an environment that is
-- not frozen, the order of the source, where it has one, is below that of the target, where that
-- has one, and for `production` the window is open.
pub start_promotion-Passes :
    (lower : String → String) (clock : Clock) (id : String) (now : ℕ) (o : Outside) (q : Request)
    → (s : Site)
    → ((e : PromotionError) × (start_promotion lower clock id now o q s ≡ (s, some e)))
      ⊎ Passes lower clock s q
unfolding start_promotion
start_promotion-Passes lower clock id now o q s =
    elim (Result-cases (get_environment lower clock s.freezes s.window q.source_env)) [
      | inr (a, e) ↦ inl (bad_name a, rw e refl)
      | inl (a, e) ↦
          elim (Result-cases (get_environment lower clock s.freezes s.window q.target_env)) [
            | inr (b, f) ↦ inl (bad_name b, rw (e, f) refl)
            | inl (b, f) ↦ elim (Option-cases b) [
              | inl n ↦ inl (invalid_target, rw (e, f, n) refl)
              | inr (v, n) ↦ elim (Bool-cases (is_backward a v)) [
                | inl x ↦ inl (backward, rw (e, f, n, x) refl)
                | inr x ↦ elim (Bool-cases (can_deploy lower q.target_env v)) [
                  | inr y ↦ inl (closed, rw (e, f, n, x, y) refl)
                  | inl y ↦
                      let c = can_deploy-tells lower q.target_env v y in
                      let g = found_view lower clock s q.target_env v (f ∙ ap (λ t. ok t) n) in
                      inr (a, v, e, f ∙ ap (λ t. ok t) n, x, sym g.0 ∙ c.0, rw (sym g.1) c.1)
                ]
              ]
            ]
          ]
    ]

-- The environments are entries of a plain object, so that the name `constructor` is found: where
-- `toLowerCase` gives it for the target, the name of the source is found or missing, and `Object` is
-- not frozen, a start runs the deployment at once, without an approval and without an order.
pub start_promotion_inherited :
    (lower : String → String) (clock : Clock) (id : String) (now : ℕ) (o : Outside) (q : Request)
    → (s : Site) (source : Option View) → lower q.target_env ≡ "constructor"
    → get_environment lower clock s.freezes s.window q.source_env ≡ ok source
    → is_frozen lower "Object" s.freezes ≡ false
    → start_promotion lower clock id now o q s
      ≡ execute_promotion id now o (record s { promotions = put id (new_promotion q) s.promotions })
unfolding start_promotion get_environment entry can_deploy
start_promotion_inherited lower clock id now o q s none h k f = rw (k, h, f, h) refl
start_promotion_inherited lower clock id now o q s (some v) h k f =
    rw (k, h, f, not_below-none v.environment.order, h) refl

-- An approval does not look at freezes and windows: whatever they are set to, it ends in the same
-- way and changes the same.
pub approve_promotion_any :
    (id approver : String) (now : ℕ) (o : Outside) (s : Site) (f : Freezes) (w : Window)
    → approve_promotion id approver now o (record s { freezes = f; window = w }) ≡ (
      record (approve_promotion id approver now o s).0 { freezes = f; window = w },
      (approve_promotion id approver now o s).1,
    )
unfolding approve_promotion execute_promotion
approve_promotion_any id approver now o s f w =
    elim (Result-cases (submit_approval id approver now approved s.approvals)) [
      | inr (x, e) ↦ rw e refl
      | inl (n, e) ↦ elim (Option-cases (lookup id s.promotions)) [
        | inl m ↦ rw (e, m) refl
        | inr (p, m) ↦ rw (e, m) refl
      ]
    ]
