-- ===== src/Environments/Runs.antt =====
-- Sequences of requests to the promotion engine, with freezes and windows between them.
use sj_cloud.Prelude.{
  ℕ, String, Bool, true, false, List, [], ◌∷◌, Option, none, some, lookup, Result, ok, err,
  Bool-cases, Option-cases, inl, inr,
}
use sj_cloud.Application.Metering.{IsAccounted}
use sj_cloud.Application.Deploying.{Outside}
use sj_cloud.Application.Deploying.Metering.{run_deployment-IsAccounted}
use sj_cloud.Environments.{
  Clock, View, TypeError, get_environment, can_deploy, Approvals, approved, rejected, ApprovalError,
  submit_approval, freeze, unfreeze, Window,
}
use sj_cloud.Environments.Promotions.{
  Promotion, Site, Request, execute_promotion, begin, looked_up, start_promotion, after_approval,
  approve_promotion, reject_found, after_rejection, reject_promotion, is_backward,
}
use sj_cloud.Environments.Gated.{IsGated}
use sj_cloud.Environments.Calls.{
  start_promotion-IsGated, approve_promotion-IsGated, reject_promotion-IsGated,
}

-- what callers do; every call of the engine comes with the time, what the deployment learns from
-- outside and, for a start, the identifier that is drawn
pub data Event : Type 0 where
  starts : Clock → String → ℕ → Outside → Request → Event
  approves : String → String → ℕ → Outside → Event
  rejects : String → String → ℕ → Event
  freezes_env unfreezes_env : String → Event
  sets_window : Window → Event

module _ (lower : String → String) where
  abbrev pub happen : Event → Site → Site
  happen (starts clock id now o q) s = (start_promotion lower clock id now o q s).0
  happen (approves id approver now o) s = (approve_promotion id approver now o s).0
  happen (rejects id approver now) s = (reject_promotion id approver now s).0
  happen (freezes_env name) s = record s { freezes = freeze lower name s.freezes }
  happen (unfreezes_env name) s = record s { freezes = unfreeze lower name s.freezes }
  happen (sets_window w) s = record s { window = w }

  unfoldable pub happen_all : List Event → Site → Site
  happen_all [] s = s
  happen_all (e ∷ rest) s = happen_all rest (happen e s)

happen-IsGated :
    (lower : String → String) (e : Event) (s : Site)
    → IsGated lower s
    → IsGated lower (happen lower e s)
happen-IsGated lower (starts clock id now o q) s g =
    start_promotion-IsGated lower clock id now o q s g
happen-IsGated lower (approves id approver now o) s g =
    approve_promotion-IsGated lower id approver now o s g
happen-IsGated lower (rejects id approver now) s g =
    reject_promotion-IsGated lower id approver now s g
happen-IsGated lower (freezes_env name) s g = g
happen-IsGated lower (unfreezes_env name) s g = g
happen-IsGated lower (sets_window w) s g = g

-- Where every promotion to production whose deployment has run has an approval with the status
-- `APPROVED`, this stays so, whatever promotions are started, approved and rejected, in any order,
-- with whatever identifiers are drawn, and whatever environments and windows are set between.
pub happen_all-IsGated :
    (lower : String → String) (events : List Event) (s : Site)
    → IsGated lower s
    → IsGated lower (happen_all lower events s)
unfolding happen_all
happen_all-IsGated lower [] s g = g
happen_all-IsGated lower (e ∷ rest) s g =
    happen_all-IsGated lower rest (happen lower e s) (happen-IsGated lower e s g)

-- the count of active applications is that of the registry
abbrev pub IsMeteredSite : Site → Type 0
IsMeteredSite s = IsAccounted s.world.platform

execute_promotion-IsMetered :
    (id : String) (now : ℕ) (o : Outside) (s : Site)
    → IsMeteredSite s
    → IsMeteredSite (execute_promotion id now o s).0
unfolding execute_promotion
execute_promotion-IsMetered id now o s m = elim (Option-cases (lookup id s.promotions)) [
  | inl e ↦ rw e m
  | inr (p, e) ↦ rw e (
      run_deployment-IsAccounted
        (record {
          app_id = p.app_id;
          tenant_id = p.tenant_id;
          release_id = p.release_id;
          now = now;
        })
        o s.world m)
]

begin-IsMetered :
    (id : String) (now : ℕ) (o : Outside) (q : Request) (b : Bool) (s : Site)
    → IsMeteredSite s
    → IsMeteredSite (begin id now o q b s).0
begin-IsMetered id now o q true s m = m
begin-IsMetered id now o q false s m = execute_promotion-IsMetered id now o s m

looked_up-IsMetered :
    (lower : String → String) (id : String) (now : ℕ) (o : Outside) (q : Request)
    → (a b : Result TypeError (Option View)) (s : Site) → IsMeteredSite s
    → IsMeteredSite (looked_up lower id now o q a b s).0
looked_up-IsMetered lower id now o q (err e) b s m = m
looked_up-IsMetered lower id now o q (ok a) (err e) s m = m
looked_up-IsMetered lower id now o q (ok a) (ok none) s m = m
looked_up-IsMetered lower id now o q (ok a) (ok (some v)) s m =
    elim (Bool-cases (is_backward a v)) [
      | inl e ↦ rw e m
      | inr e ↦ elim (Bool-cases (can_deploy lower q.target_env v)) [
        | inr f ↦ rw (e, f) m
        | inl f ↦ rw (e, f) (begin-IsMetered id now o q v.environment.requires_approval _ m)
      ]
    ]

after_approval-IsMetered :
    (id : String) (now : ℕ) (o : Outside) (s : Site) (r : Result ApprovalError Approvals)
    → IsMeteredSite s
    → IsMeteredSite (after_approval id now o s r).0
after_approval-IsMetered id now o s (err e) m = m
after_approval-IsMetered id now o s (ok n) m =
    execute_promotion-IsMetered id now o (record s { approvals = n }) m

reject_found-IsMetered :
    (id : String) (p : Option Promotion) (s : Site)
    → IsMeteredSite s
    → IsMeteredSite (reject_found id p s).0
reject_found-IsMetered id none s m = m
reject_found-IsMetered id (some p) s m = m

after_rejection-IsMetered :
    (id : String) (s : Site) (r : Result ApprovalError Approvals)
    → IsMeteredSite s
    → IsMeteredSite (after_rejection id s r).0
after_rejection-IsMetered id s (err e) m = m
after_rejection-IsMetered id s (ok n) m =
    reject_found-IsMetered id (lookup id s.promotions) (record s { approvals = n }) m

happen-IsMetered :
    (lower : String → String) (e : Event) (s : Site)
    → IsMeteredSite s
    → IsMeteredSite (happen lower e s)
unfolding start_promotion approve_promotion reject_promotion
happen-IsMetered lower (starts clock id now o q) s m =
    looked_up-IsMetered lower id now o q
      (get_environment lower clock s.freezes s.window q.source_env)
      (get_environment lower clock s.freezes s.window q.target_env) s m
happen-IsMetered lower (approves id approver now o) s m =
    after_approval-IsMetered id now o s (submit_approval id approver now approved s.approvals) m
happen-IsMetered lower (rejects id approver now) s m =
    after_rejection-IsMetered id s (submit_approval id approver now rejected s.approvals) m
happen-IsMetered lower (freezes_env name) s m = m
happen-IsMetered lower (unfreezes_env name) s m = m
happen-IsMetered lower (sets_window w) s m = m

-- Where no save of a transition fails and the count of active applications is the number of those
-- with the status `ACTIVE`, this stays so under any sequence of starts, approvals and rejections of
-- promotions, whatever else their deployments meet outside.
pub happen_all-IsMetered :
    (lower : String → String) (events : List Event) (s : Site)
    → IsMeteredSite s
    → IsMeteredSite (happen_all lower events s)
unfolding happen_all
happen_all-IsMetered lower [] s m = m
happen_all-IsMetered lower (e ∷ rest) s m =
    happen_all-IsMetered lower rest (happen lower e s) (happen-IsMetered lower e s m)
