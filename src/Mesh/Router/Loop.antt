-- ===== src/Mesh/Router/Loop.antt =====
-- The loop of `routeRequest` for one request alone: every attempt, the waits skipped.
use sj_cloud.Prelude.{ℕ, zero, suc, Option, none, some}
use sj_cloud.Mesh.Router.Requests.{
  Request, Outcome, Response, balancer_failed, MeshState, max_attempts_of,
}
use sj_cloud.Mesh.Router.Attempt.{
  Flight, Admission, refused, admitted, admit, Launch, rejected, launched, launch, Landing, done,
  retry, land,
}

-- what the world gives to an attempt: the readings of the clock at its start and at its end, the
-- draws, and the upstream's answer
pub record World : Type 0 where
  pub started : ℕ
  pub ended : ℕ
  pub draw : ℕ
  pub jitter : ℕ
  pub outcome : Outcome

unfoldable pub after_launch : World → Flight → Launch × MeshState → Landing × MeshState
after_launch w f (rejected e, s) = (done (balancer_failed e), s)
after_launch w f (launched url, s) = land w.ended w.jitter w.outcome f url s

-- one attempt, to its end
unfoldable pub attempt_once : World → Flight → MeshState → Landing × MeshState
unfolding after_launch
attempt_once w f s = after_launch w f (launch w.started w.draw f s)

unfoldable pub next_attempt :
    (Flight → MeshState → Option (Response × MeshState))
    → Landing × MeshState
    → Option (Response × MeshState)
next_attempt again (done r, s) = some (r, s)
next_attempt again (retry delay f, s) = again f s

-- The loop, on fuel; the world is asked by the number of the attempt. `none`: the fuel ran out.
unfoldable pub attempts : ℕ → (ℕ → World) → Flight → MeshState → Option (Response × MeshState)
unfolding next_attempt
attempts zero world f s = none
attempts (suc fuel) world f s =
    next_attempt (attempts fuel world) (attempt_once (world f.attempt) f s)

unfoldable pub after_admission : (ℕ → World) → Admission × MeshState → Option (Response × MeshState)
after_admission world (refused response, s) = some (response, s)
after_admission world (admitted f, s) = attempts (max_attempts_of f.config) world f s

-- `routeRequest`, with fuel for as many attempts as the policy allows
unfoldable pub route_request : ℕ → (ℕ → World) → Request → MeshState → Option (Response × MeshState)
unfolding after_admission
route_request now world r s = after_admission world (admit now r s)
