-- ===== src/Incidents/Examples.antt =====
-- The theorem of the incidents at a concrete input.
use sj_cloud.Prelude.{List, [], ◌∷◌, arith}
use sj_cloud.Incidents.{Manager, acknowledged, resolved}
use sj_cloud.Incidents.Alerts.{Event, fired, asked, happen_all, IsSingle, happen_all-IsSingle}

abbrev no_incidents : Manager
no_incidents = record { incidents = []; history = [] }

abbrev events : List Event
events =
    fired 1 "inc-a" "CPU" "critical" "cpu"
    ∷ fired 2 "inc-b" "CPU" "critical" "cpu"
    ∷ asked 3 "inc-a" acknowledged
    ∷ asked 4 "inc-a" resolved
    ∷ fired 5 "inc-c" "CPU" "critical" "cpu"
    ∷ []

happen_all-IsSingle_example : IsSingle (happen_all events no_incidents)
happen_all-IsSingle_example = happen_all-IsSingle events no_incidents (λ alert. omega arith)
