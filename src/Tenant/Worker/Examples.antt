-- ===== src/Tenant/Worker/Examples.antt =====
-- Tests of the worker, and its theorems at concrete inputs. Nothing outside fails but the saving of
-- the tenant "globex".
use sj_cloud.Prelude.{
  true, List, [], ◌∷◌, none, some, ◌≡◌, refl, lookup, put, arith, str_eq, if◌then◌else◌, ◌*◌, ◌≤◌,
  ok, length,
}
use sj_cloud.Tenant.Lifecycle.{active, starting, restoring, archived, no_metrics, transition_to}
use sj_cloud.Tenant.Queue
use sj_cloud.Tenant.Queue.{
  Queue, Task, start, stop, restore, archive, unsupported, get_pending, add_task, should_retry,
  move_to_dlq,
}
use sj_cloud.Tenant.Site.{Tenant, Site, Outside, shift, save_as, save_tenant}
use sj_cloud.Tenant.Actions.{perform}
use sj_cloud.Tenant.Worker.{World, process_task, run_loop, write_first}
use sj_cloud.Tenant.Worker.Drain.{Round, rounds, rounds-drain}
use sj_cloud.Tenant.Worker.Attempts.{
  Event, dispatched, round, happen, happen_all, IsSound, happen_all-IsSound,
}
use sj_cloud.Tenant.Worker.Stopped.{refused, stopped-refused}

abbrev outside : Outside
outside = record {
  save_error = λ t. if str_eq t.tenant_id "globex" then some "invalid" else none;
  destroy_error = λ id. none;
  workspace_error = λ id. none;
  command = λ verb id. true;
  snapshot = λ id version. none;
  denied = λ id s. none;
  steps = λ id. [];
  duration = λ id. 5;
}

abbrev acme : Tenant
acme = record { tenant_id = "acme"; status = active }

abbrev site : Site
site = record { tenants = ("acme", acme) ∷ []; metrics = no_metrics }

abbrev idle : World
idle = record {
  queue = record { tasks = []; dlq = [] };
  site = site;
  tenant_queue_depth = 0;
  tenant_queue_wait_time = [];
}

abbrev events : List Event
events =
    dispatched 1 "task-a" "acme" stop
    ∷ dispatched 2 "task-b" "acme" (unsupported "scale")
    ∷ round outside 3 4
    ∷ round (record outside { save_error = λ t. some "EIO" }) 5 6
    ∷ round outside 7 8
    ∷ round outside 9 10
    ∷ []

event_counts :
    (length (happen_all events idle).queue.tasks ≡ 1)
    × (length (happen_all events idle).queue.dlq ≡ 1)
unfolding happen_all happen Queue.dispatch add_task run_loop get_pending process_task perform shift
    transition_to save_as save_tenant put lookup should_retry move_to_dlq write_first
event_counts = (refl, refl)

happen_all-IsSound_example : IsSound (happen_all events idle).queue
happen_all-IsSound_example = happen_all-IsSound events idle (tt, tt)

abbrev busy : World
unfolding Queue.dispatch add_task
busy = record idle { queue = Queue.dispatch 1 "task-a" "acme" (unsupported "scale") idle.queue }

-- calls outside that fail in a round
abbrev failing : Outside
failing = record outside { save_error = λ t. some "EIO" }

abbrev times : List Round
times = (outside, 2, 3) ∷ (failing, 4, 5) ∷ (outside, 6, 7) ∷ []

pending_bound : 3 * length (get_pending busy.queue) ≤ length times
unfolding get_pending busy
pending_bound = omega arith

rounds-drain_example : get_pending (rounds times busy).queue ≡ []
rounds-drain_example = rounds-drain times busy pending_bound

acme_there : lookup "acme" site.tenants ≡ some acme
unfolding lookup
acme_there = refl

abbrev stopped : Site
unfolding perform shift transition_to save_as save_tenant lookup put
stopped = (perform outside "acme" stop site).0

stop_acme : perform outside "acme" stop site ≡ (stopped, ok tt)
unfolding perform shift transition_to save_as save_tenant lookup put
stop_acme = refl

stopped-refused_example :
    (perform outside "acme" start stopped ≡ refused starting stopped)
    × (perform outside "acme" restore stopped ≡ refused restoring stopped)
    × (perform outside "acme" archive stopped ≡ refused archived stopped)
stopped-refused_example = stopped-refused outside "acme" site stopped acme acme_there refl stop_acme
