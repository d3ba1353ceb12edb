-- ===== src/Mesh/Events.antt =====
-- platform/service-mesh/events: the bus stamps an event, the store keeps the last ones. The random
-- event identifiers are left out. Subscribers of the bus are not part of the state.
use sj_cloud.Prelude.{
  ℕ, String, List, [], ◌∷◌, ◌++◌, ltb, length, if◌then◌else◌, ◌≤◌, arith, length-append,
}
use sj_cloud.Mesh.RuntimeState.{RuntimeState}

-- the event types that the modelled code dispatches, with what their payloads name
pub data Payload : Type 0 where
  circuit_opened circuit_closed circuit_half_open : String → Payload
  runtime_state_changed : RuntimeState → RuntimeState → Payload

pub record Event : Type 0 where
  pub payload : Payload
  pub timestamp : ℕ

-- `EventStore`, whose `maxSize` is 1000
abbrev pub max_size : ℕ
max_size = 1000

abbrev pub shift : List Event → List Event
shift [] = []
shift (e ∷ es) = es

unfoldable pub add : Event → List Event → List Event
add e events =
    let pushed = events ++ e ∷ [] in if ltb max_size (length pushed) then shift pushed else pushed

-- `EventDispatcher.dispatch`, with the bus's `publish`
unfoldable pub dispatch : ℕ → Payload → List Event → List Event
unfolding add
dispatch now payload events = add (record { payload = payload; timestamp = now }) events

-- The store keeps at most `max_size` events.
pub length-dispatch-le :
    (now : ℕ) (p : Payload) (es : List Event)
    → length es ≤ max_size
    → length (dispatch now p es) ≤ max_size
unfolding dispatch
length-dispatch-le now p [] h = omega arith
length-dispatch-le now p (e ∷ es) h =
    ground (arith, length-append es (record { payload = p; timestamp = now } ∷ []))
