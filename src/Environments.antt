-- ===== src/Environments.antt =====
-- platform/environments: freeze-manager.js, deployment-window.js, environment-manager.js and
-- approval-manager.js, on one state. `toLowerCase` is the argument `lower`; the hour and the day of
-- the week are given by the clock, an argument too.
pub mod Promotions
pub mod Gated
pub mod Calls
pub mod Runs
pub mod Refusals
pub mod Freezing
mod Examples
use sj_cloud.Prelude.{
  ℕ, String, Bool, true, false, not, ◌&&◌, ◌||◌, List, [], ◌∷◌, Option, none, some, Dict, lookup,
  put, keep, some_of, str_eq, ltb, leb, ◌==◌, if◌then◌else◌, Result, ok, err,
}

-- the set of the freeze manager
abbrev pub Freezes : Type 0
Freezes = List String

-- `isFrozen`
unfoldable pub is_frozen : (String → String) → String → Freezes → Bool
is_frozen lower name s = some_of (λ x. str_eq (lower name) x) s

-- `freeze`
unfoldable pub freeze : (String → String) → String → Freezes → Freezes
freeze lower name s = if is_frozen lower name s then s else lower name ∷ s

-- `unfreeze`
unfoldable pub unfreeze : (String → String) → String → Freezes → Freezes
unfreeze lower name s = keep (λ x. not (str_eq (lower name) x)) s

pub record Window : Type 0 where
  pub start : ℕ
  pub end : ℕ
  pub days : List ℕ

abbrev pub new_window : Window
new_window = record { start = 0; end = 24; days = 1 ∷ 2 ∷ 3 ∷ 4 ∷ 5 ∷ [] }

-- a reading of the clock
pub record Clock : Type 0 where
  pub day : ℕ
  pub hour : ℕ

-- `isWindowOpen`
unfoldable pub is_window_open : Clock → Window → Bool
is_window_open now w =
    if not (some_of (λ d. d == now.day) w.days)
    then false
    else if ltb now.hour w.start || leb w.end now.hour
    then false
    else true

-- an entry of `environments`; what is no entry of its own but inherited has no order
pub record Environment : Type 0 where
  pub name : String
  pub order : Option ℕ
  pub requires_approval : Bool

-- `environments[key]`: a plain object, so that `constructor` finds the function `Object` and
-- `__proto__` an object without a name
pub data Entry : Type 0 where
  missing : Entry
  named : Environment → Entry
  nameless : Entry

abbrev pub environment : String → ℕ → Bool → Entry
environment name order approval =
    named (record { name = name; order = some order; requires_approval = approval })

unfoldable pub entry : String → Entry
entry key =
    if str_eq key "development"
    then environment key 1 false
    else if str_eq key "testing"
    then environment key 2 false
    else if str_eq key "staging"
    then environment key 3 false
    else if str_eq key "production"
    then environment key 4 true
    else if str_eq key "constructor"
    then named (record { name = "Object"; order = none; requires_approval = false })
    else if str_eq key "__proto__"
    then nameless
    else missing

-- what `getEnvironment` gives
pub record View : Type 0 where
  pub environment : Environment
  pub frozen : Bool
  pub window_open : Bool

pub data TypeError : Type 0 where
  type_error : TypeError

abbrev pub viewed :
    (String → String) → Clock → Freezes → Window → Entry → Result TypeError (Option View)
viewed lower now s w missing = ok none
viewed lower now s w nameless = err type_error
viewed lower now s w (named e) = ok (
    some (record {
      environment = e;
      frozen = is_frozen lower e.name s;
      window_open = is_window_open now w;
    }))

-- `getEnvironment`
unfoldable pub get_environment :
    (String → String) → Clock → Freezes → Window → String → Result TypeError (Option View)
get_environment lower now s w name = viewed lower now s w (entry (lower name))

-- the rest of `canDeploy`, of an environment that is there
unfoldable pub can_deploy : (String → String) → String → View → Bool
can_deploy lower name v =
    if v.frozen
    then false
    else if str_eq (lower name) "production" && not v.window_open
    then false
    else true

pub data ApprovalStatus : Type 0 where
  pending approved rejected : ApprovalStatus

pub record Approval : Type 0 where
  pub env_name : String
  pub required_role : String
  pub status : ApprovalStatus
  pub decided_by : Option String
  pub decided_at : Option ℕ

abbrev pub Approvals : Type 0
Approvals = Dict Approval

-- `requestApproval`
unfoldable pub request_approval : String → String → Approvals → Approvals
request_approval id env_name m =
    put id
      (record {
        env_name = env_name;
        required_role = "admin";
        status = pending;
        decided_by = none;
        decided_at = none;
      })
      m

pub data ApprovalError : Type 0 where
  not_found already_processed : ApprovalError

abbrev pub decided : String → String → ℕ → ApprovalStatus → Approval → Approvals → Approvals
decided id approver now status a m =
    put id (record a { status = status; decided_by = some approver; decided_at = some now }) m

-- a request that was decided is refused
abbrev pub processed : ApprovalStatus → Approvals → Result ApprovalError Approvals
processed pending m = ok m
processed _ m = err already_processed

abbrev pub decide :
    String
    → String
    → ℕ
    → ApprovalStatus
    → Option Approval
    → Approvals
    → Result ApprovalError Approvals
decide id approver now status none m = err not_found
decide id approver now status (some a) m = processed a.status (decided id approver now status a m)

-- `submitApproval`, of the decision `APPROVED` or another
unfoldable pub submit_approval :
    String → String → ℕ → ApprovalStatus → Approvals → Result ApprovalError Approvals
submit_approval id approver now status m = decide id approver now status (lookup id m) m
