-- ===== src/Environments/Promotions.antt =====
-- platform/environments/promotion-engine.js, on the approvals, the environments and the deployment
-- engine. The random identifier of a promotion is an argument; the events are left out.
use sj_cloud.Prelude.{
  ℕ, String, Bool, true, false, Option, none, some, Dict, lookup, put, leb, if◌then◌else◌, Result,
  ok, err,
}
use sj_cloud.Application.Engine.{World, Failure}
use sj_cloud.Application.Deploying.{Outside, run_deployment}
use sj_cloud.Environments.{
  Freezes, Window, Clock, View, TypeError, get_environment, can_deploy, approved, rejected,
  Approvals, ApprovalError, request_approval, submit_approval,
}

pub data PromotionStatus : Type 0 where
  pending deploying success failed rejected_promotion : PromotionStatus

pub record Promotion : Type 0 where
  pub tenant_id : String
  pub app_id : String
  pub release_id : String
  pub source_env : String
  pub target_env : String
  pub status : PromotionStatus

pub record Site : Type 0 where
  pub freezes : Freezes
  pub window : Window
  pub approvals : Approvals
  pub promotions : Dict Promotion
  pub world : World

-- what a call throws
pub data PromotionError : Type 0 where
  bad_name : TypeError → PromotionError
  invalid_target : PromotionError
  backward : PromotionError
  closed : PromotionError
  promotion_missing : PromotionError
  not_decided : ApprovalError → PromotionError
  deployment : Failure → PromotionError

-- what a call leaves behind, and its error
abbrev pub Outcome : Type 0
Outcome = Site × Option PromotionError

-- `source && source.order >= target.order`
abbrev pub not_below : Option ℕ → Option ℕ → Bool
not_below (some a) (some b) = leb b a
not_below _ _ = false

abbrev pub is_backward : Option View → View → Bool
is_backward none target = false
is_backward (some source) target = not_below source.environment.order target.environment.order

abbrev pub with_status : PromotionStatus → Promotion → Promotion
with_status status p = record p { status = status }

abbrev pub status_of_run : Option Failure → PromotionStatus
status_of_run none = success
status_of_run (some e) = failed

abbrev pub error_of_run : Option Failure → Option PromotionError
error_of_run none = none
error_of_run (some e) = some (deployment e)

-- the run of the deployment of a promotion; its status `DEPLOYING` is written over at the end
abbrev pub execute_found : String → ℕ → Outside → Option Promotion → Site → Outcome
execute_found id now o none s = (s, some promotion_missing)
execute_found id now o (some p) s =
    let r =
      run_deployment
        (record {
          app_id = p.app_id;
          tenant_id = p.tenant_id;
          release_id = p.release_id;
          now = now;
        })
        o s.world in
    (
      record s {
        promotions = put id (with_status (status_of_run r.1) p) s.promotions;
        world = r.0;
      },
      error_of_run r.1,
    )

-- `executePromotion`
unfoldable pub execute_promotion : String → ℕ → Outside → Site → Outcome
execute_promotion id now o s = execute_found id now o (lookup id s.promotions) s

-- what a caller asks for
pub record Request : Type 0 where
  pub tenant_id : String
  pub app_id : String
  pub release_id : String
  pub source_env : String
  pub target_env : String

abbrev pub new_promotion : Request → Promotion
new_promotion q = record {
  tenant_id = q.tenant_id;
  app_id = q.app_id;
  release_id = q.release_id;
  source_env = q.source_env;
  target_env = q.target_env;
  status = pending;
}

-- a promotion is kept, and waits for an approval or runs
abbrev pub begin : String → ℕ → Outside → Request → Bool → Site → Outcome
begin id now o q true s =
    (record s { approvals = request_approval id q.target_env s.approvals }, none)
begin id now o q false s = execute_promotion id now o s

abbrev pub started : String → ℕ → Outside → Request → Bool → Site → Outcome
started id now o q approval s =
    begin id now o q approval (record s { promotions = put id (new_promotion q) s.promotions })

abbrev pub checked :
    (String → String) → String → ℕ → Outside → Request → Option View → Option View → Site → Outcome
checked lower id now o q source none s = (s, some invalid_target)
checked lower id now o q source (some target) s =
    if is_backward source target
    then (s, some backward)
    else if can_deploy lower q.target_env target
    then started id now o q target.environment.requires_approval s
    else (s, some closed)

abbrev pub looked_up :
    (String → String)
    → String
    → ℕ
    → Outside
    → Request
    → Result TypeError (Option View)
    → Result TypeError (Option View)
    → Site
    → Outcome
looked_up lower id now o q (err e) target s = (s, some (bad_name e))
looked_up lower id now o q (ok source) (err e) s = (s, some (bad_name e))
looked_up lower id now o q (ok source) (ok target) s = checked lower id now o q source target s

-- `startPromotion`
unfoldable pub start_promotion :
    (String → String) → Clock → String → ℕ → Outside → Request → Site → Outcome
start_promotion lower clock id now o q s =
    looked_up lower id now o q (get_environment lower clock s.freezes s.window q.source_env)
      (get_environment lower clock s.freezes s.window q.target_env) s

abbrev pub after_approval : String → ℕ → Outside → Site → Result ApprovalError Approvals → Outcome
after_approval id now o s (err e) = (s, some (not_decided e))
after_approval id now o s (ok m) = execute_promotion id now o (record s { approvals = m })

-- `approvePromotion`
unfoldable pub approve_promotion : String → String → ℕ → Outside → Site → Outcome
approve_promotion id approver now o s =
    after_approval id now o s (submit_approval id approver now approved s.approvals)

abbrev pub reject_found : String → Option Promotion → Site → Outcome
reject_found id none s = (s, some promotion_missing)
reject_found id (some p) s =
    (record s { promotions = put id (with_status rejected_promotion p) s.promotions }, none)

abbrev pub after_rejection : String → Site → Result ApprovalError Approvals → Outcome
after_rejection id s (err e) = (s, some (not_decided e))
after_rejection id s (ok m) = reject_found id (lookup id s.promotions) (record s { approvals = m })

-- `rejectPromotion`
unfoldable pub reject_promotion : String → String → ℕ → Site → Outcome
reject_promotion id approver now s =
    after_rejection id s (submit_approval id approver now rejected s.approvals)
