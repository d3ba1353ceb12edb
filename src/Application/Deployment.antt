-- ===== src/Application/Deployment.antt =====
-- platform/application-manager/state: deployment-state.js, deployment-transition.js and
-- deployment-fsm.js. The registry is read and written in memory. The error of saving a configuration in
-- a transition is caught: it leaves the registered status as it was. The events are left out.
use sj_cloud.Prelude.{
  ℕ, ◌+◌, ◌-◌, String, Bool, true, false, not, ◌&&◌, ◌||◌, List, [], ◌∷◌, Option, none, some, Dict,
  lookup, put, some_of, str_eq, if◌then◌else◌, Result, ok, err,
}

pub data DeploymentState : Type 0 where
  created building built deploying verifying active scaling updating failed rollback archived :
      DeploymentState

-- the text of a state
abbrev pub name : DeploymentState → String
name created = "CREATED"
name building = "BUILDING"
name built = "BUILT"
name deploying = "DEPLOYING"
name verifying = "VERIFYING"
name active = "ACTIVE"
name scaling = "SCALING"
name updating = "UPDATING"
name failed = "FAILED"
name rollback = "ROLLBACK"
name archived = "ARCHIVED"

-- `a === b` on states
abbrev pub same : DeploymentState → DeploymentState → Bool
same a b = str_eq (name a) (name b)

-- `VALID_TRANSITIONS`
abbrev pub valid_transitions : DeploymentState → List DeploymentState
valid_transitions created = building ∷ deploying ∷ failed ∷ archived ∷ []
valid_transitions building = built ∷ failed ∷ []
valid_transitions built = deploying ∷ failed ∷ archived ∷ []
valid_transitions deploying = verifying ∷ failed ∷ rollback ∷ []
valid_transitions verifying = active ∷ failed ∷ []
valid_transitions active = updating ∷ scaling ∷ failed ∷ archived ∷ rollback ∷ []
valid_transitions scaling = active ∷ failed ∷ []
valid_transitions updating = verifying ∷ failed ∷ []
valid_transitions failed = rollback ∷ building ∷ deploying ∷ archived ∷ []
valid_transitions rollback = verifying ∷ failed ∷ active ∷ []
valid_transitions archived = created ∷ []

-- `isValidTransition`; a state that is missing allows everything
unfoldable pub is_valid_transition : Option DeploymentState → DeploymentState → Bool
is_valid_transition none to = true
is_valid_transition (some from) to = some_of (same to) (valid_transitions from)

-- `fsmMetrics`
pub record Metrics : Type 0 where
  pub application_total : ℕ
  pub application_active : ℕ
  pub build_total : ℕ
  pub deployment_total : ℕ
  pub deployment_failures : ℕ
  pub rollback_total : ℕ

abbrev pub no_metrics : Metrics
no_metrics = record {
  application_total = 0;
  application_active = 0;
  build_total = 0;
  deployment_total = 0;
  deployment_failures = 0;
  rollback_total = 0;
}

abbrev pub plus_if : Bool → ℕ → ℕ
plus_if true n = n + 1
plus_if false n = n

abbrev pub is_active : Option DeploymentState → Bool
is_active none = false
is_active (some s) = same s active

-- the metrics of a transition; `Math.max(0, n - 1)` is the subtraction that stops at 0
unfoldable pub track : Option DeploymentState → DeploymentState → Metrics → Metrics
track old to m =
    let entered = plus_if (same to active && not (is_active old)) m.application_active in
    record m {
      application_active = if is_active old && not (same to active) then entered - 1 else entered;
      build_total = plus_if (same to building) m.build_total;
      deployment_total = plus_if (same to deploying) m.deployment_total;
      deployment_failures = plus_if (same to failed) m.deployment_failures;
      rollback_total = plus_if (same to rollback) m.rollback_total;
    }

-- the registered configurations, by their status, which may be missing, the metrics, and whether the
-- saves of the next transitions fail, each one if it is made
pub record Platform : Type 0 where
  pub statuses : Dict (Option DeploymentState)
  pub metrics : Metrics
  pub faults : List Bool

abbrev pub next_fault : List Bool → Bool
next_fault [] = false
next_fault (b ∷ rest) = b

abbrev pub later_faults : List Bool → List Bool
later_faults [] = []
later_faults (b ∷ rest) = rest

abbrev pub is_status : DeploymentState → Option DeploymentState → Bool
is_status to none = false
is_status to (some s) = same s to

-- the status of a registered application is written where saving does not fail, and no other is added
abbrev pub persisted :
    Bool
    → String
    → DeploymentState
    → Option (Option DeploymentState)
    → Dict (Option DeploymentState)
    → Dict (Option DeploymentState)
persisted fails id to none m = m
persisted fails id to (some status) m =
    if is_status to status || fails then m else put id (some to) m

pub record DeploymentError : Type 0 where
  pub from : Option DeploymentState
  pub to : DeploymentState

-- `transitionTo` of the machine of an application
unfoldable pub transition_to :
    String
    → DeploymentState
    → Option DeploymentState
    → Platform
    → Result DeploymentError (DeploymentState × Platform)
transition_to app_id to state p =
    if is_valid_transition state to
    then ok (
      to,
      record {
        statuses = persisted (next_fault p.faults) app_id to (lookup app_id p.statuses) p.statuses;
        metrics = track state to p.metrics;
        faults = later_faults p.faults;
      },
    )
    else err (record { from = state; to = to })
