-- ===== src/Alerts/Examples.antt =====
-- The theorems of the alerts at concrete inputs.
use sj_cloud.Prelude.{
  ℕ, zero, suc, ◌≡◌, ◌+◌, refl, arith, String, false, List, [], ◌∷◌, none, some, lookup, put,
}
use sj_cloud.Incidents.{resolved, closed, find_of_alert}
use sj_cloud.Alerts.{
  State, Engine, Alert, Draw, rule, above, new_engine, register_rule, register_all, validate,
  evaluate_state, get_penalties, calculate,
}
use sj_cloud.Alerts.Score.{
  Event, evaluates, asked, happen_all, calculate_stuck, evaluate_state-get_penalties,
}

abbrev state : State
state = record {
  cpu = some 40;
  memory = none;
  disk = some 95;
  restart_count = some 6;
  cert_days_remaining = none;
  circuit_breaker_open = false;
  pipeline_failed = false;
  deployment_failed = false;
  backup_failed = false;
  tenant_health = "";
  app_health = "";
}

abbrev draw : String → Draw
draw id = record { now = 9; alert_id = id; incident_id = id }

abbrev start : Engine
start = new_engine (record { incidents = []; history = [] })

abbrev warning : Alert
warning = record {
  id = "w";
  rule_id = "high-cpu";
  title = "High CPU Utilization";
  message = "";
  severity = "WARNING";
  timestamp = 1;
}

abbrev copies : ℕ → List Alert
copies zero = []
copies (suc n) = warning ∷ copies n

-- an engine that has recorded 20 warnings
abbrev warned : Engine
warned = record start { alerts = copies 20 }

abbrev events : List Event
events =
    evaluates (draw "a") "high-disk" state none
    ∷ asked 10 "a" resolved
    ∷ asked 11 "a" closed
    ∷ evaluates (draw "b") "none" state none
    ∷ []

calculate_stuck_example : calculate none (happen_all events warned) ≡ 0
calculate_stuck_example = calculate_stuck events warned none (omega arith)

evaluate_state-get_penalties_example :
    get_penalties none (evaluate_state (draw "e") "high-disk" state none start).0
    ≡ get_penalties none start + 35
unfolding register_all register_rule lookup validate find_of_alert put
evaluate_state-get_penalties_example =
    evaluate_state-get_penalties (draw "e") "high-disk" state none
      (rule "high-disk" "High Disk Utilization" (λ s. above 90 s.disk) "CRITICAL") start none refl
      refl refl refl refl refl (omega arith)
