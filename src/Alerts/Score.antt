-- ===== src/Alerts/Score.antt =====
-- How the alerts weigh on the score of the platform.
use Prim.Native.String.{len, ◌++◌ as str_append}
use text.Mathlib.TextPositions.{len-append}
use sj_cloud.Prelude.{
  ℕ, ◌+◌, ◌-◌, ◌≤◌, ◌<◌, ◌≡◌, arith, String, true, false, List, [], ◌∷◌, ◌++◌, Option, none, some,
  lookup, population, str_eq, ltb, length, length-append, population-put_new, eq_iff, ap,
  if◌then◌else◌, Bool-cases, inl, inr,
}
use sj_cloud.Incidents.{
  IncidentState, create_incident, find_of_alert, validate as validate_incident, Manager,
  create_incident_from_alert, transition_incident,
}
use sj_cloud.Alerts.{
  State, AlertRule, Alert, Engine, validate, rest_of, record_alert, caught, Draw, escalated, raised,
  alert_of, evaluated, evaluate_state, is_critical, get_penalties, calculate,
}

-- a rule is evaluated, or an incident is asked for a state
pub data Event : Type 0 where
  evaluates : Draw → String → State → Option String → Event
  asked : ℕ → String → IncidentState → Event

abbrev pub happen : Event → Engine → Engine
happen (evaluates d rule_id state message) s = (evaluate_state d rule_id state message s).0
happen (asked now id next) s = record s {
  incidents = caught (transition_incident now id next s.incidents) s.incidents;
}

unfoldable pub happen_all : List Event → Engine → Engine
happen_all [] s = s
happen_all (e ∷ rest) s = happen_all rest (happen e s)

length-rest_of : (l : List Alert) → length (rest_of l) ≡ length l - 1
length-rest_of [] = omega arith
length-rest_of (a ∷ l) = omega arith

length-record_alert :
    (a : Alert) (l : List Alert)
    → length (record_alert a l) ≡ (if ltb 999 (length l) then length l else length l + 1)
unfolding record_alert
length-record_alert a l = elim (Bool-cases (ltb 1000 (length (l ++ (a ∷ []))))) [
  | inl e ↦ rw e (ground (arith, e, length-append l (a ∷ []), length-rest_of (l ++ (a ∷ []))))
  | inr e ↦ rw e (ground (arith, e, length-append l (a ∷ [])))
]

raised-le :
    (d : Draw) (a : Alert) (r : Option _) (s : Engine)
    → length s.alerts ≤ length (raised d a r s).0.alerts
raised-le d a (some e) s = ground arith
raised-le d a none s = ground (arith, length-record_alert a s.alerts)

evaluated-le :
    (d : Draw) (rule_id : String) (state : State) (message : Option String) (r : Option AlertRule)
    (s : Engine)
    → length s.alerts ≤ length (evaluated d rule_id state message r s).0.alerts
evaluated-le d rule_id state message none s = ground arith
evaluated-le d rule_id state message (some r) s = elim (Bool-cases (r.check_fn state)) [
  | inl e ↦ let a = alert_of d rule_id r message in rw e (raised-le d a (validate a) s)
  | inr e ↦ rw e (ground arith)
]

happen-le : (e : Event) (s : Engine) → length s.alerts ≤ length (happen e s).alerts
unfolding evaluate_state
happen-le (evaluates d rule_id state message) s =
    evaluated-le d rule_id state message (lookup rule_id s.rules) s
happen-le (asked now id next) s = ground arith

happen_all-le :
    (events : List Event) (s : Engine) → length s.alerts ≤ length (happen_all events s).alerts
unfolding happen_all
happen_all-le [] s = ground arith
happen_all-le (e ∷ rest) s = ground (arith, happen-le e s, happen_all-le rest (happen e s))

-- From an engine that has recorded 20 alerts or more, of any severity, the score of the platform is 0
-- after any evaluations of rules and any transitions of incidents, whatever the processor's load is.
pub calculate_stuck :
    (events : List Event) (s : Engine) (cpu : Option ℕ)
    → 20 ≤ length s.alerts
    → calculate cpu (happen_all events s) ≡ 0
unfolding calculate get_penalties
calculate_stuck events s cpu h = ground (arith, h, happen_all-le events s)

titled : (title : String) → str_eq (str_append "Incident: " title) "" ≡ false
titled title = elim (Bool-cases (str_eq (str_append "Incident: " title) "")) [
  | inr e ↦ e
  | inl e ↦ ground (
    arith,
    ap len ((eq_iff (str_append "Incident: " title) "").0 e),
    len-append "Incident: " title,
  )
]

create-is_critical :
    (now : ℕ) (id title alert : String) (m : Manager)
    → find_of_alert alert m.incidents ≡ none
    → lookup id m.incidents ≡ none
    → str_eq id "" ≡ false
    → population is_critical
        (caught (create_incident_from_alert now id title "CRITICAL" alert m) m).incidents
      ≡ population is_critical m.incidents + 1
unfolding create_incident_from_alert create_incident validate_incident
create-is_critical now id title alert m unheld fresh named =
    rw (unheld, named, titled title) (population-put_new is_critical id _ m.incidents fresh)

escalated-is_critical :
    (d : Draw) (a : Alert) (m : Manager)
    → find_of_alert a.id m.incidents ≡ none
    → lookup d.incident_id m.incidents ≡ none
    → str_eq d.incident_id "" ≡ false
    → population is_critical (escalated d a m).incidents
      ≡ population is_critical m.incidents + (if str_eq a.severity "CRITICAL" then 1 else 0)
escalated-is_critical d a m unheld fresh named = elim (Bool-cases (str_eq a.severity "CRITICAL")) [
  | inr e ↦ rw e (ground arith)
  | inl e ↦
      rw (e, (eq_iff a.severity "CRITICAL").0 e)
        (create-is_critical d.now d.incident_id a.title a.id m unheld fresh named)
]

-- Where a rule applies to a state and its alert is valid, no live incident has the identifier drawn for
-- the alert, no incident that drawn for the incident, which is not empty, and fewer than 1000 alerts
-- are recorded, evaluating the rule raises the penalties by 5 at any severity, and by 30 more at
-- the severity CRITICAL.
pub evaluate_state-get_penalties :
    (d : Draw) (rule_id : String) (state : State) (message : Option String) (r : AlertRule)
    (s : Engine) (cpu : Option ℕ)
    → lookup rule_id s.rules ≡ some r
    → r.check_fn state ≡ true
    → validate (alert_of d rule_id r message) ≡ none
    → find_of_alert d.alert_id s.incidents.incidents ≡ none
    → lookup d.incident_id s.incidents.incidents ≡ none
    → str_eq d.incident_id "" ≡ false
    → length s.alerts < 1000
    → get_penalties cpu (evaluate_state d rule_id state message s).0
      ≡ get_penalties cpu s + (if str_eq r.severity "CRITICAL" then 35 else 5)
unfolding evaluate_state get_penalties
evaluate_state-get_penalties d rule_id state message r s cpu found applies valid unheld fresh named
      room =
    let a = alert_of d rule_id r message in
    rw (found, applies, valid)
      (ground (
        arith,
        room,
        length-record_alert a s.alerts,
        escalated-is_critical d a s.incidents unheld fresh named,
      ))
