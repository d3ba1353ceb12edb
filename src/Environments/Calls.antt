-- ===== src/Environments/Calls.antt =====
-- The approval that a promotion to production needs, at the start, the approval and the rejection of
-- one.
use sj_cloud.Prelude.{
  ℕ, ◌≡◌, refl, arith, String, true, false, Option, none, some, lookup, put, lookup-put_self,
  str_eq, ok, Bool-cases, Option-cases, Result-cases, inl, inr, ◌⊎◌,
}
use sj_cloud.Application.Deploying.{Outside}
use sj_cloud.Environments.{
  Clock, View, get_environment, can_deploy, Approval, approved, rejected, submit_approval,
}
use sj_cloud.Environments.Promotions.{
  Site, Request, with_status, checked, start_promotion, approve_promotion, reject_promotion,
  is_backward, rejected_promotion,
}
use sj_cloud.Environments.Gated.{
  IsGated, put-IsGated, put_approval-IsGated, allowed_by, still_allowed, missing-IsGated,
  begin-IsGated, production_requires_approval, submit_approval-ok, execute_promotion-IsGated,
}

module _ (lower : String → String) where
  checked-IsGated :
      (id : String) (now : ℕ) (o : Outside) (q : Request) (clock : Clock) (s : Site)
      → (source target : Option View)
      → get_environment lower clock s.freezes s.window q.target_env ≡ ok target
      → IsGated lower s
      → IsGated lower (checked lower id now o q source target s).0
  checked-IsGated id now o q clock s source none h g = g
  checked-IsGated id now o q clock s source (some v) h g =
      elim (Bool-cases (is_backward source v)) [
        | inl e ↦ rw e g
        | inr e ↦ elim (Bool-cases (can_deploy lower q.target_env v)) [
          | inr f ↦ rw (e, f) g
          | inl f ↦
              let c : (v.environment.requires_approval ≡ true)
                  ⊎ (str_eq (lower q.target_env) "production" ≡ false) =
                elim (Bool-cases v.environment.requires_approval) [
                  | inl a ↦ inl a
                  | inr a ↦ inr (production_requires_approval lower clock s q.target_env v h a)
                ] in
              rw (e, f) (begin-IsGated lower id now o q v.environment.requires_approval s c g)
        ]
      ]

  pub start_promotion-IsGated :
      (clock : Clock) (id : String) (now : ℕ) (o : Outside) (q : Request) (s : Site)
      → IsGated lower s
      → IsGated lower (start_promotion lower clock id now o q s).0
  unfolding start_promotion
  start_promotion-IsGated clock id now o q s g =
      elim (Result-cases (get_environment lower clock s.freezes s.window q.source_env)) [
        | inr (a, e) ↦ rw e g
        | inl (a, e) ↦
            elim (Result-cases (get_environment lower clock s.freezes s.window q.target_env)) [
              | inr (b, f) ↦ rw (e, f) g
              | inl (b, f) ↦ rw (e, f) (checked-IsGated id now o q clock s a b f g)
            ]
      ]

  pub approve_promotion-IsGated :
      (id approver : String) (now : ℕ) (o : Outside) (s : Site)
      → IsGated lower s
      → IsGated lower (approve_promotion id approver now o s).0
  unfolding approve_promotion
  approve_promotion-IsGated id approver now o s g =
      elim (Result-cases (submit_approval id approver now approved s.approvals)) [
        | inr (x, e) ↦ rw e g
        | inl (n, e) ↦
            let k = submit_approval-ok id approver now approved s.approvals n e in
            let a : Approval = record k.0 {
              status = approved;
              decided_by = some approver;
              decided_at = some now;
            } in
            let t : Site = record s { approvals = put id a s.approvals } in
            let u : IsGated lower t =
              put_approval-IsGated lower id a s.promotions s.approvals g
                (allowed_by lower id (lookup id s.promotions) a refl) in
            elim (Option-cases (lookup id s.promotions)) [
              | inl m ↦ rw (e, k.3) (missing-IsGated lower id now o t m u)
              | inr (p, m) ↦
                  rw (e, k.3)
                    (execute_promotion-IsGated lower id now o t p m
                      (rw (lookup-put_self id a s.approvals) (ground arith)) u)
            ]
      ]

  pub reject_promotion-IsGated :
      (id approver : String) (now : ℕ) (s : Site)
      → IsGated lower s
      → IsGated lower (reject_promotion id approver now s).0
  unfolding reject_promotion
  reject_promotion-IsGated id approver now s g =
      elim (Result-cases (submit_approval id approver now rejected s.approvals)) [
        | inr (x, e) ↦ rw e g
        | inl (n, e) ↦
            let k = submit_approval-ok id approver now rejected s.approvals n e in
            let a : Approval = record k.0 {
              status = rejected;
              decided_by = some approver;
              decided_at = some now;
            } in
            let u : IsGated lower (record s { approvals = put id a s.approvals }) =
              put_approval-IsGated lower id a s.promotions s.approvals g
                (still_allowed lower (lookup id s.promotions) k.0 a k.2 (rw k.1 at (g id))) in
            elim (Option-cases (lookup id s.promotions)) [
              | inl m ↦ rw (e, k.3, m) u
              | inr (p, m) ↦
                  rw (e, k.3, m)
                    (put-IsGated lower id (with_status rejected_promotion p) s.promotions
                      (put id a s.approvals) u (ground arith))
            ]
      ]
