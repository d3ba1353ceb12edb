-- ===== src/Incidents/Alerts.antt =====
-- How many live incidents an alert has.
use Prim.Native.String
use sj_cloud.Prelude.{
  ℕ, ◌+◌, ◌≤◌, ◌≡◌, refl, String, Bool, true, false, List, [], ◌∷◌, Option, none, some, Dict,
  lookup, put, population, population-put, some_of, str_eq, eq_iff, if◌then◌else◌, Result, ok, err,
  Option-cases, Bool-cases, subst, inl, inr, arith,
}
use sj_cloud.Incidents.{
  IncidentState, open_, acknowledged, investigating, mitigated, resolved, closed, same,
  allowed_transitions, Failure, transition_to, Incident, Manager, validate, created,
  create_incident, is_live, is_of_alert, find_of_alert, reused, create_incident_from_alert, moved,
  transited, transited_if, transition_incident,
}

-- what happens to the incidents: an alert fires, or an incident is asked for a state
pub data Event : Type 0 where
  fired : ℕ → String → String → String → String → Event
  asked : ℕ → String → IncidentState → Event

-- the manager after a call, which a failure leaves as it was
abbrev pub after : Result Failure (Incident × Manager) → Manager → Manager
after (ok (i, m')) m = m'
after (err e) m = m

unfoldable pub happen : Event → Manager → Manager
happen (fired now id title severity alert) m =
    after (create_incident_from_alert now id title severity alert m) m
happen (asked now id next) m = after (transition_incident now id next m) m

unfoldable pub happen_all : List Event → Manager → Manager
happen_all [] m = m
happen_all (e ∷ rest) m = happen_all rest (happen e m)

-- No alert has two live incidents.
abbrev pub IsSingle : Manager → Type 0
IsSingle m = (alert : String) → population (is_of_alert alert) m.incidents ≤ 1

population-put-le :
    (p : Incident → Bool) (k : String) (v : Incident) (m : Dict Incident)
    → population p (put k v m) ≤ population p m + (if p v then 1 else 0)
unfolding put
population-put-le p k v [] = ground arith
population-put-le p k v ((j, w) ∷ m) = ground (arith, population-put-le p k v m)

find-none :
    (alert : String) (m : Dict Incident)
    → find_of_alert alert m ≡ none
    → population (is_of_alert alert) m ≡ 0
unfolding find_of_alert
find-none alert [] h = refl
find-none alert ((_, i) ∷ m) h = ground (arith, find-none alert m)

live-before :
    (s next : IncidentState)
    → some_of (same next) (allowed_transitions s) ≡ true
    → is_live next ≡ true
    → is_live s ≡ true
live-before open_ next h l = refl
live-before acknowledged next h l = refl
live-before investigating next h l = refl
live-before mitigated next h l = refl
live-before resolved open_ h l = ground arith
live-before resolved acknowledged h l = ground arith
live-before resolved investigating h l = ground arith
live-before resolved mitigated h l = ground arith
live-before resolved resolved h l = ground arith
live-before resolved closed h l = ground arith
live-before closed next h l = ground arith

created-IsSingle :
    (now : ℕ) (i : Incident) (alert : String) (e : Option Failure) (m : Manager)
    → i.alert_id ≡ some alert
    → find_of_alert alert m.incidents ≡ none
    → IsSingle m
    → IsSingle (after (created now i e m) m)
created-IsSingle now i alert (some e) m q n h = h
created-IsSingle now i alert none m q n h = λ other. elim (Bool-cases (str_eq alert other)) [
  | inl same ↦
      let none_of : population (is_of_alert other) m.incidents ≡ 0 =
        subst (λ a. population (is_of_alert a) m.incidents ≡ 0) ((eq_iff alert other).0 same)
          (find-none alert m.incidents n) in
      ground (arith, none_of, population-put-le (is_of_alert other) i.id i m.incidents)
  | inr differ ↦
      let not_of : is_of_alert other i ≡ false = rw (q, differ) refl in
      ground (arith, not_of, h other, population-put-le (is_of_alert other) i.id i m.incidents)
]

create-IsSingle :
    (now : ℕ) (id title severity alert : String) (m : Manager)
    → find_of_alert alert m.incidents ≡ none
    → IsSingle m
    → IsSingle (after (create_incident now id title severity (some alert) m) m)
unfolding create_incident
create-IsSingle now id title severity alert m n h =
    let incident : Incident = record {
      id = id;
      title = title;
      severity = severity;
      alert_id = some alert;
      state = open_;
      created_at = now;
      updated_at = now;
      resolved_at = none;
    } in
    created-IsSingle now incident alert (validate incident) m refl n h

moved-le :
    (now : ℕ) (id : String) (next : IncidentState) (i : Incident) (alert : String)
    (m : Dict Incident)
    → lookup id m ≡ some i
    → some_of (same next) (allowed_transitions i.state) ≡ true
    → population (is_of_alert alert) m ≤ 1
    → population (is_of_alert alert) (put id (moved now next i) m) ≤ 1
moved-le now id next i alert m e v h = ground (
  arith,
  population-put (is_of_alert alert) id i (moved now next i) m e,
  live-before i.state next v,
)

transition-IsSingle :
    (now : ℕ) (id : String) (next : IncidentState) (m : Manager)
    → IsSingle m
    → IsSingle (after (transition_incident now id next m) m)
unfolding transition_incident transition_to
transition-IsSingle now id next m h = elim (Option-cases (lookup id m.incidents)) [
  | inl e ↦ rw (e, transited_if) h
  | inr (i, e) ↦ elim (Bool-cases (some_of (same next) (allowed_transitions i.state))) [
    | inl v ↦
        rw (e, transited_if, v, transited)
          (λ alert. moved-le now id next i alert m.incidents e v (h alert))
    | inr v ↦ rw (e, transited_if, v, transited) h
  ]
]

happen-IsSingle : (e : Event) (m : Manager) → IsSingle m → IsSingle (happen e m)
unfolding happen create_incident_from_alert
happen-IsSingle (fired now id title severity alert) m h =
    elim (Option-cases (find_of_alert alert m.incidents)) [
      | inl e ↦
          rw (e, reused)
            (create-IsSingle now id (String.◌++◌ "Incident: " title) severity alert m e h)
      | inr (i, e) ↦ rw (e, reused) h
    ]
happen-IsSingle (asked now id next) m h = transition-IsSingle now id next m h

-- Where no alert has two incidents that are neither resolved nor closed, this stays so, whatever
-- alerts fire, as often as they do, and whatever states the incidents are asked for.
pub happen_all-IsSingle :
    (events : List Event) (m : Manager) → IsSingle m → IsSingle (happen_all events m)
unfolding happen_all
happen_all-IsSingle [] m h = h
happen_all-IsSingle (e ∷ rest) m h = happen_all-IsSingle rest (happen e m) (happen-IsSingle e m h)
