-- ===== src/Mesh/Router/Examples.antt =====
-- Tests of the routing engine, and its theorems at concrete inputs.
use sj_cloud.Prelude.{
  bump, ◌*◌, ◌==◌, ℕ, ◌+◌, ◌≡◌, refl, Option, none, some, List, [], ◌∷◌, arith, lookup, put,
  if◌then◌else◌,
}
use sj_cloud.Mesh.Telemetry
use sj_cloud.Mesh.Telemetry.{open_, join}
use sj_cloud.Mesh.Backoff.{get, post, is_eligible_for_retry}
use sj_cloud.Mesh.Balancer
use sj_cloud.Mesh.Balancer.{
  plain, round_robin, select_endpoint, candidates, select_from, select_round_robin,
  decrement_connections, increment_connections,
}
use sj_cloud.Mesh.Breaker
use sj_cloud.Mesh.Breaker.{Breaker, Globals, update_config, get_breaker, allow_request}
use sj_cloud.Mesh.Router.Requests.{
  Request, ServiceConfig, answered, failed, read_timeout, Response, relayed, gateway_failure,
  MeshState,
}
use sj_cloud.Mesh.Router.Attempt.{
  fail, Flight, admit, guard_source, guard_breaker, launch, launch_at, catch_failure, give_up,
  denies, land, mentions_timeout, may_retry, has_budget,
}
use sj_cloud.Mesh.Router.Loop.{World, attempts, attempt_once, route_request}
use sj_cloud.Mesh.Router.Answers.{IsAnswered, route_request-IsAnswered}
use sj_cloud.Mesh.Router.Flights.{Net, Action, arrive, take_off, touch_down, act, act_all, pull}
use sj_cloud.Mesh.Router.Interleaving.{
  conns, in_flight, IsCovered, IsExact, act_all-IsCovered, act_all-IsExact,
  server_error_undercounts,
}

abbrev globals : Globals
unfolding Telemetry.new
globals = record { telemetry = Telemetry.new 0; events = [] }

abbrev config : ServiceConfig
config = record {
  endpoints = some (plain "http://a" ∷ plain "http://b" ∷ []);
  default_endpoint = plain "http://auth:80";
  timeouts = none;
  retry = none;
  circuit_breaker = none;
  allowed_sources = some ("web" ∷ []);
  strategy = round_robin;
}

abbrev mesh : MeshState
mesh = record {
  services = ("auth", config) ∷ [];
  breakers = [];
  balancer = Balancer.new;
  globals = globals;
}

abbrev request : Request
request = record {
  service_id = "auth";
  method = get;
  tenant_id = none;
  source_service = some "web";
}

abbrev world : ℕ → World
world n = record {
  started = 10 * n;
  ended = 10 * n + 5;
  draw = 0;
  jitter = 0;
  outcome = if n == 2 then answered 200 else failed read_timeout;
}

abbrev flight : Flight
flight = record { request = request; config = config; start_time = 0; attempt = 1 }

-- The second attempt succeeds; a POST is not tried again, and a timeout is answered with 504.
abbrev response_of : Option (Response × MeshState) → Option Response
response_of none = none
response_of (some (r, s)) = some r

abbrev posted : Request
posted = record request { method = post }

runs :
    (response_of (route_request 0 world request mesh) ≡ some (relayed 200))
    × (response_of (route_request 0 world posted mesh) ≡ some (gateway_failure 504 read_timeout 1))
unfolding Breaker.new fail bump route_request attempts attempt_once admit guard_source guard_breaker
    denies launch launch_at land catch_failure give_up may_retry has_budget mentions_timeout
    is_eligible_for_retry get_breaker allow_request select_endpoint candidates select_from
    select_round_robin lookup put decrement_connections increment_connections
runs = (refl, refl)

route_request-IsAnswered_example :
    IsAnswered (lookup "auth" mesh.services) request (route_request 0 world request mesh)
route_request-IsAnswered_example = route_request-IsAnswered 0 world request mesh

abbrev lost : Request
lost = record request { service_id = "nowhere" }

abbrev stranger : Request
stranger = record request { source_service = none }

abbrev tripped : Breaker
tripped = record {
  service_id = "auth";
  failure_threshold = 5;
  recovery_timeout_ms = 10000;
  half_open_max_requests = 2;
  state = open_;
  failure_count = 5;
  success_count = 0;
  last_state_transition = 100;
}

abbrev broken : MeshState
broken = record mesh { breakers = ("auth", tripped) ∷ [] }

abbrev two_at_a : Net
two_at_a = record {
  mesh = record mesh {
    balancer = record { rr_indices = []; active_connections = ("http://a", 2) ∷ [] };
  };
  waiting = [];
  flying = ("http://a", flight) ∷ ("http://a", record flight { attempt = 2 }) ∷ [];
}

two_at_a-IsExact : IsExact two_at_a
unfolding lookup
two_at_a-IsExact url = ground arith

abbrev acts : List Action
acts = touch_down 0 60 0 (answered 200) ∷ arrive 61 request ∷ take_off 0 62 0 ∷ []

act_all-IsExact_example : IsExact (act_all acts two_at_a)
act_all-IsExact_example = act_all-IsExact acts two_at_a (omega arith) two_at_a-IsExact

act_all-IsCovered_example : IsCovered (act_all acts two_at_a)
act_all-IsCovered_example =
    act_all-IsCovered acts two_at_a (λ url. omega (arith, two_at_a-IsExact url))

server_error_undercounts_example :
    let n' = act (touch_down 0 60 0 (answered 503)) two_at_a in
    conns "http://a" n' + 1 ≡ in_flight "http://a" n'
unfolding pull
server_error_undercounts_example =
    server_error_undercounts 0 60 0 503 "http://a" flight
      (("http://a", record flight { attempt = 2 }) ∷ []) two_at_a two_at_a-IsExact refl
      (omega arith) (omega arith)
