-- ===== src/Incidents.antt =====
-- platform/incidents: incident-state.js, incident-manager.js, incident-validator.js and
-- incident-history.js. The random identifier of a new incident is an argument; its title and its
-- description, the events and the log are left out.
pub mod Alerts
mod Examples
use Prim.Native.String
use sj_cloud.Prelude.{
  ℕ, String, Bool, true, false, not, ◌&&◌, ◌||◌, List, [], ◌∷◌, ◌++◌, Option, none, some, Dict,
  lookup, put, some_of, str_eq, if◌then◌else◌, Result, ok, err,
}

pub data IncidentState : Type 0 where
  open_ acknowledged investigating mitigated resolved closed : IncidentState

-- `a === b` on states
abbrev pub same : IncidentState → IncidentState → Bool
same open_ open_ = true
same acknowledged acknowledged = true
same investigating investigating = true
same mitigated mitigated = true
same resolved resolved = true
same closed closed = true
same _ _ = false

-- `AllowedTransitions`
abbrev pub allowed_transitions : IncidentState → List IncidentState
allowed_transitions open_ = acknowledged ∷ resolved ∷ closed ∷ []
allowed_transitions acknowledged = investigating ∷ resolved ∷ closed ∷ []
allowed_transitions investigating = mitigated ∷ resolved ∷ closed ∷ []
allowed_transitions mitigated = resolved ∷ closed ∷ []
allowed_transitions resolved = closed ∷ []
allowed_transitions closed = []

pub data Failure : Type 0 where
  invalid : IncidentState → IncidentState → Failure
  not_found no_id no_title no_severity : Failure

-- `IncidentStateMachine.transitionTo`
unfoldable pub transition_to : IncidentState → IncidentState → Result Failure IncidentState
transition_to next state =
    if some_of (same next) (allowed_transitions state) then ok next else err (invalid state next)

pub record Incident : Type 0 where
  pub id : String
  pub title : String
  pub severity : String
  pub alert_id : Option String
  pub state : IncidentState
  pub created_at : ℕ
  pub updated_at : ℕ
  pub resolved_at : Option ℕ

-- an entry of `IncidentHistory`
pub record Transition : Type 0 where
  pub incident_id : String
  pub from : Option IncidentState
  pub to : IncidentState
  pub timestamp : ℕ

-- `IncidentManager`, with the history
pub record Manager : Type 0 where
  pub incidents : Dict Incident
  pub history : List Transition

-- `IncidentValidator.validate`, on an incident whose state is one of the states
unfoldable pub validate : Incident → Option Failure
validate i =
    if str_eq i.id ""
    then some no_id
    else (if str_eq i.title ""
        then some no_title
        else (if str_eq i.severity "" then some no_severity else none))

abbrev pub created : ℕ → Incident → Option Failure → Manager → Result Failure (Incident × Manager)
created now i (some e) m = err e
created now i none m = ok (
  i,
  record {
    incidents = put i.id i m.incidents;
    history =
        m.history ++ record { incident_id = i.id; from = none; to = open_; timestamp = now } ∷ [];
  },
)

-- `createIncident`
unfoldable pub create_incident :
    ℕ → String → String → String → Option String → Manager → Result Failure (Incident × Manager)
unfolding validate
create_incident now id title severity alert_id m =
    let incident : Incident = record {
      id = id;
      title = title;
      severity = severity;
      alert_id = alert_id;
      state = open_;
      created_at = now;
      updated_at = now;
      resolved_at = none;
    } in
    created now incident (validate incident) m

-- an incident that is neither closed nor resolved
abbrev pub is_live : IncidentState → Bool
is_live s = not (same s closed) && not (same s resolved)

abbrev pub names_alert : String → Option String → Bool
names_alert alert none = false
names_alert alert (some a) = str_eq a alert

-- the test of `createIncidentFromAlert`
abbrev pub is_of_alert : String → Incident → Bool
is_of_alert alert i = names_alert alert i.alert_id && is_live i.state

unfoldable pub find_of_alert : String → Dict Incident → Option Incident
find_of_alert alert [] = none
find_of_alert alert ((_, i) ∷ m) = if is_of_alert alert i then some i else find_of_alert alert m

abbrev pub reused :
    Option Incident
    → Result Failure (Incident × Manager)
    → Manager
    → Result Failure (Incident × Manager)
reused none fresh m = fresh
reused (some i) fresh m = ok (i, m)

-- `createIncidentFromAlert`
unfoldable pub create_incident_from_alert :
    ℕ → String → String → String → String → Manager → Result Failure (Incident × Manager)
create_incident_from_alert now id title severity alert m =
    reused (find_of_alert alert m.incidents)
      (create_incident now id (String.◌++◌ "Incident: " title) severity (some alert) m) m

-- what `transitionIncident` writes to an incident
abbrev pub moved : ℕ → IncidentState → Incident → Incident
moved now next i = record i {
  state = next;
  updated_at = now;
  resolved_at = if same next resolved then some now else i.resolved_at;
}

abbrev pub transited :
    ℕ
    → String
    → Incident
    → Manager
    → Result Failure IncidentState
    → Result Failure (Incident × Manager)
transited now id i m (err e) = err e
transited now id i m (ok next) = ok (
  moved now next i,
  record {
    incidents = put id (moved now next i) m.incidents;
    history =
        m.history
        ++ record { incident_id = id; from = some i.state; to = next; timestamp = now } ∷ [];
  },
)

abbrev pub transited_if :
    ℕ → String → IncidentState → Option Incident → Manager → Result Failure (Incident × Manager)
transited_if now id next none m = err not_found
transited_if now id next (some i) m = transited now id i m (transition_to next i.state)

-- `transitionIncident`
unfoldable pub transition_incident :
    ℕ → String → IncidentState → Manager → Result Failure (Incident × Manager)
transition_incident now id next m = transited_if now id next (lookup id m.incidents) m

unfoldable pub get_incident : String → Manager → Option Incident
get_incident id m = lookup id m.incidents

unfoldable pub clear : Manager → Manager
clear m = record m { incidents = [] }
