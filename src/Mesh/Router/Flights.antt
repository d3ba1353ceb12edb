-- ===== src/Mesh/Router/Flights.antt =====
-- Many requests at once: the event loop runs the parts of `routeRequest` of
-- platform/service-mesh/routing/engine.js in any order, over one shared state.
use sj_cloud.Prelude.{ℕ, zero, suc, String, Option, none, some, List, [], ◌∷◌}
use sj_cloud.Mesh.Router.Requests.{Request, Outcome, MeshState}
use sj_cloud.Mesh.Router.Attempt.{
  Flight, Admission, refused, admitted, admit, Launch, rejected, launched, launch, Landing, done,
  retry, land,
}

-- the shared state, the flights that are about to start an attempt, and those that wait for an
-- upstream, each with the endpoint that it was counted at
pub record Net : Type 0 where
  pub mesh : MeshState
  pub waiting : List Flight
  pub flying : List (String × Flight)

-- what the event loop may do next; a flight is named by its place
pub data Action : Type 0 where
  arrive : ℕ → Request → Action
  take_off : ℕ → ℕ → ℕ → Action
  touch_down : ℕ → ℕ → ℕ → Outcome → Action

unfoldable pub pull {ℓ} : {A : Type ℓ} → ℕ → List A → Option (A × List A)
pull i [] = none
pull zero (x ∷ xs) = some (x, xs)
pull (suc i) (x ∷ xs) = elim (pull i xs) [ none ↦ none | some (y, ys) ↦ some (y, x ∷ ys) ]

unfoldable pub arrived : Admission × MeshState → Net → Net
arrived (refused response, s) n = record n { mesh = s }
arrived (admitted f, s) n = record n { mesh = s; waiting = f ∷ n.waiting }

unfoldable pub taken_off : Launch × MeshState → Flight → Net → Net
taken_off (rejected e, s) f n = record n { mesh = s }
taken_off (launched url, s) f n = record n { mesh = s; flying = (url, f) ∷ n.flying }

unfoldable pub touched_down : Landing × MeshState → Net → Net
touched_down (done response, s) n = record n { mesh = s }
touched_down (retry delay f, s) n = record n { mesh = s; waiting = f ∷ n.waiting }

unfoldable pub start : ℕ → ℕ → Option (Flight × List Flight) → Net → Net
unfolding taken_off
start now draw none n = n
start now draw (some (f, rest)) n =
    taken_off (launch now draw f n.mesh) f (record n { waiting = rest })

unfoldable pub finish :
    ℕ → ℕ → Outcome → Option ((String × Flight) × List (String × Flight)) → Net → Net
unfolding touched_down
finish now jitter o none n = n
finish now jitter o (some ((url, f), rest)) n =
    touched_down (land now jitter o f url n.mesh) (record n { flying = rest })

unfoldable pub act : Action → Net → Net
unfolding arrived start finish pull
act (arrive now r) n = arrived (admit now r n.mesh) n
act (take_off i now draw) n = start now draw (pull i n.waiting) n
act (touch_down i now jitter o) n = finish now jitter o (pull i n.flying) n

unfoldable pub act_all : List Action → Net → Net
act_all [] n = n
act_all (a ∷ rest) n = act_all rest (act a n)
