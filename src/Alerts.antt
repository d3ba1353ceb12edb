-- ===== src/Alerts.antt =====
-- platform/alerts: alert-rule.js, alert-engine.js, alert-validator.js and alert-history.js, with the
-- incidents of platform/incidents; and platform/health-score: health-rules.js and
-- health-calculator.js. The random identifiers are arguments, and so is the processor's load that the
-- forecast gives. The dispatcher and the events are left out.
pub mod Score
mod Examples
use Prim.Native.String
use sj_cloud.Prelude.{
  ℕ, ◌+◌, ◌-◌, ◌*◌, String, Bool, true, false, not, ◌&&◌, ◌||◌, List, [], ◌∷◌, ◌++◌, Option, none,
  some, Dict, lookup, put, population, str_eq, ltb, length, if◌then◌else◌, Result, ok, err,
}
use sj_cloud.Incidents.{Incident, Failure, Manager, is_live, create_incident_from_alert}

-- what the rules read; a missing number is above and below nothing
pub record State : Type 0 where
  pub cpu : Option ℕ
  pub memory : Option ℕ
  pub disk : Option ℕ
  pub restart_count : Option ℕ
  pub cert_days_remaining : Option ℕ
  pub circuit_breaker_open : Bool
  pub pipeline_failed : Bool
  pub deployment_failed : Bool
  pub backup_failed : Bool
  pub tenant_health : String
  pub app_health : String

abbrev pub above : ℕ → Option ℕ → Bool
above limit none = false
above limit (some n) = ltb limit n

abbrev pub below : ℕ → Option ℕ → Bool
below limit none = false
below limit (some n) = ltb n limit

pub record AlertRule : Type 0 where
  pub id : String
  pub name : String
  pub check_fn : State → Bool
  pub severity : String

abbrev pub rule : String → String → (State → Bool) → String → AlertRule
rule id name check severity = record { id = id; name = name; check_fn = check; severity = severity }

abbrev pub default_rules : List AlertRule
default_rules =
    rule "high-cpu" "High CPU Utilization" (λ s. above 80 s.cpu) "WARNING"
    ∷ rule "high-memory" "High Memory Utilization" (λ s. above 85 s.memory) "WARNING"
    ∷ rule "high-disk" "High Disk Utilization" (λ s. above 90 s.disk) "CRITICAL"
    ∷ rule "restart-loops" "Restart Loop Detected" (λ s. above 5 s.restart_count) "CRITICAL"
    ∷ rule "circuit-breaker-open" "Circuit Breaker Open" (λ s. s.circuit_breaker_open) "WARNING"
    ∷ rule "tenant-unhealthy" "Tenant Unhealthy" (λ s. str_eq s.tenant_health "UNHEALTHY")
        "CRITICAL"
    ∷ rule "app-unhealthy" "Application Unhealthy" (λ s. str_eq s.app_health "UNHEALTHY") "CRITICAL"
    ∷ rule "pipeline-failure" "Pipeline Execution Failed" (λ s. s.pipeline_failed) "WARNING"
    ∷ rule "deployment-failure" "Deployment Failed" (λ s. s.deployment_failed) "CRITICAL"
    ∷ rule "backup-failure" "Backup Verification Failed" (λ s. s.backup_failed) "WARNING"
    ∷ rule "cert-expiration" "Certificate Expiring Soon" (λ s. below 15 s.cert_days_remaining)
        "WARNING"
    ∷ []

pub record Alert : Type 0 where
  pub id : String
  pub rule_id : String
  pub title : String
  pub message : String
  pub severity : String
  pub timestamp : ℕ

pub record Engine : Type 0 where
  pub rules : Dict AlertRule
  pub alerts : List Alert
  pub incidents : Manager

unfoldable pub register_rule : AlertRule → Engine → Engine
register_rule r s = record s { rules = put r.id r s.rules }

unfoldable pub register_all : List AlertRule → Engine → Engine
register_all [] s = s
register_all (r ∷ rest) s = register_all rest (register_rule r s)

-- the constructor
abbrev pub new_engine : Manager → Engine
new_engine m = register_all default_rules (record { rules = []; alerts = []; incidents = m })

abbrev pub is_valid_severity : String → Bool
is_valid_severity s = str_eq s "INFO" || str_eq s "WARNING" || str_eq s "CRITICAL"

pub data AlertError : Type 0 where
  rule_not_found no_id no_rule_id no_title bad_severity : AlertError

unfoldable pub validate : Alert → Option AlertError
validate a =
    if str_eq a.id ""
    then some no_id
    else (if str_eq a.rule_id ""
        then some no_rule_id
        else (if str_eq a.title ""
            then some no_title
            else (if is_valid_severity a.severity then none else some bad_severity)))

abbrev pub rest_of : List Alert → List Alert
rest_of [] = []
rest_of (a ∷ l) = l

-- `record` of the history
unfoldable pub record_alert : Alert → List Alert → List Alert
record_alert a alerts =
    let pushed = alerts ++ (a ∷ []) in if ltb 1000 (length pushed) then rest_of pushed else pushed

-- an error of the incidents is caught
abbrev pub caught : Result Failure (Incident × Manager) → Manager → Manager
caught (err e) m = m
caught (ok (i, n)) m = n

-- the identifiers of the alert and of the incident, and the time
pub record Draw : Type 0 where
  pub now : ℕ
  pub alert_id : String
  pub incident_id : String

abbrev pub escalated : Draw → Alert → Manager → Manager
escalated d a m =
    if str_eq a.severity "CRITICAL"
    then caught (create_incident_from_alert d.now d.incident_id a.title a.severity a.id m) m
    else m

abbrev pub raised :
    Draw → Alert → Option AlertError → Engine → Engine × Result AlertError (Option Alert)
raised d a (some e) s = (s, err e)
raised d a none s = (
  record s { alerts = record_alert a s.alerts; incidents = escalated d a s.incidents },
  ok (some a),
)

abbrev pub default_message : String → String
default_message name = String.◌++◌ "Rule '" (String.◌++◌ name "' triggered on evaluated state.")

abbrev pub message_of : Option String → String → String
message_of none name = default_message name
message_of (some text) name = if str_eq text "" then default_message name else text

abbrev pub alert_of : Draw → String → AlertRule → Option String → Alert
alert_of d rule_id r message = record {
  id = d.alert_id;
  rule_id = rule_id;
  title = r.name;
  message = message_of message r.name;
  severity = r.severity;
  timestamp = d.now;
}

abbrev pub evaluated :
    Draw
    → String
    → State
    → Option String
    → Option AlertRule
    → Engine
    → Engine × Result AlertError (Option Alert)
evaluated d rule_id state message none s = (s, err rule_not_found)
evaluated d rule_id state message (some r) s =
    let a = alert_of d rule_id r message in
    let raise = raised d a (validate a) s in if r.check_fn state then raise else (s, ok none)

unfoldable pub evaluate_state :
    Draw → String → State → Option String → Engine → Engine × Result AlertError (Option Alert)
evaluate_state d rule_id state message s =
    evaluated d rule_id state message (lookup rule_id s.rules) s

-- an incident that counts
abbrev pub is_critical : Incident → Bool
is_critical i = is_live i.state && str_eq i.severity "CRITICAL"

abbrev pub cpu_penalty : Option ℕ → ℕ
cpu_penalty cpu = if above 80 cpu then 15 else 0

-- the failures of pipelines that it also weighs are always 0
unfoldable pub get_penalties : Option ℕ → Engine → ℕ
get_penalties cpu s =
    population is_critical s.incidents.incidents * 30
    + length s.alerts * 5
    + 0 * 10
    + cpu_penalty cpu

unfoldable pub calculate : Option ℕ → Engine → ℕ
calculate cpu s = let penalty = get_penalties cpu s in if ltb 100 penalty then 0 else 100 - penalty
