-- ===== src/Mesh/Router/Requests.antt =====
-- Requests, configurations, responses and the state that the routing engine works on:
-- platform/service-mesh/routing/engine.js, platform/service-mesh/context/runtime-context.js.
use sj_cloud.Prelude.{ℕ, String, Dict, Bool, false, Option, none, some, List, [], ◌∷◌, or_else}
use sj_cloud.Mesh.Backoff.{
  BackoffType, Method, exponential_backoff, immediate, linear, exponential, exponential_jitter,
  other,
}
use sj_cloud.Mesh.Balancer
use sj_cloud.Mesh.Balancer.{Balancer, Endpoint, Strategy}
use sj_cloud.Mesh.Breaker.{Breakers, Globals, Policy}

-- `service_id` is the host header up to its first `:` and its first `.`, in lower case.
pub record Request : Type 0 where
  pub service_id : String
  pub method : Method
  pub tenant_id : Option String
  pub source_service : Option String

-- a retry policy; only a missing number has a default
pub record RetryPolicy : Type 0 where
  pub type : BackoffType
  pub max_attempts : Option ℕ
  pub base_delay_ms : Option ℕ
  pub max_delay_ms : Option ℕ
  pub retry_on_non_idempotent : Bool

-- the compiled configuration of a service, as far as routing reads it; `timeouts` holds the
-- `request_ms` of a timeout policy, which that policy may lack
pub record ServiceConfig : Type 0 where
  pub endpoints : Option (List Endpoint)
  pub default_endpoint : Endpoint
  pub timeouts : Option (Option ℕ)
  pub retry : Option RetryPolicy
  pub circuit_breaker : Option Policy
  pub allowed_sources : Option (List String)
  pub strategy : Strategy

-- why an attempt failed: the messages of the errors
pub data Failure : Type 0 where
  read_timeout connect_timeout request_timeout : Failure
  http_error : ℕ → Failure
  other_error : String → Failure

-- what `executeHttpRequest` gives back
pub data Outcome : Type 0 where
  answered : ℕ → Outcome
  failed : Failure → Outcome

pub data Response : Type 0 where
  service_not_found access_denied circuit_open : String → Response
  balancer_failed : Balancer.Error → Response
  relayed : ℕ → Response
  gateway_failure : ℕ → Failure → ℕ → Response

abbrev pub status_of : Response → ℕ
status_of (service_not_found id) = 404
status_of (access_denied source) = 403
status_of (circuit_open id) = 503
status_of (balancer_failed e) = 502
status_of (relayed status) = status
status_of (gateway_failure status why attempts) = status

pub record MeshState : Type 0 where
  pub services : Dict ServiceConfig
  pub breakers : Breakers
  pub balancer : Balancer
  pub globals : Globals

-- the policies of a `RuntimeContext`, with its defaults for a missing one
abbrev pub default_retry : RetryPolicy
default_retry = record {
  type = exponential_backoff;
  max_attempts = some 3;
  base_delay_ms = some 100;
  max_delay_ms = some 2000;
  retry_on_non_idempotent = false;
}

abbrev pub default_breaker : Policy
default_breaker = record {
  failure_threshold = some 5;
  recovery_timeout_ms = some 10000;
  half_open_max_requests = some 2;
}

abbrev pub given {ℓ} : {A : Type ℓ} → Option A → A → A
given none a = a
given (some a) d = a

abbrev pub retry_of : ServiceConfig → RetryPolicy
retry_of c = given c.retry default_retry

abbrev pub breaker_policy_of : ServiceConfig → Policy
breaker_policy_of c = given c.circuit_breaker default_breaker

abbrev pub request_ms_of : ServiceConfig → Option ℕ
request_ms_of c = given c.timeouts (some 8000)

abbrev pub allowed_of : ServiceConfig → List String
allowed_of c = given c.allowed_sources []

abbrev pub endpoints_of : ServiceConfig → List Endpoint
endpoints_of c = given c.endpoints (c.default_endpoint ∷ [])

-- `max_attempts || 3`
abbrev pub max_attempts_of : ServiceConfig → ℕ
max_attempts_of c = or_else (retry_of c).max_attempts 3

abbrev pub tenant_of : Request → String
tenant_of r = given r.tenant_id "system"

abbrev pub source_of : Request → String
source_of r = given r.source_service "api-gateway"

abbrev pub type_name : BackoffType → String
type_name immediate = "immediate"
type_name linear = "linear"
type_name exponential = "exponential"
type_name exponential_backoff = "exponential_backoff"
type_name exponential_jitter = "exponential_jitter"
type_name (other name) = name
