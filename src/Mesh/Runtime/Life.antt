-- ===== src/Mesh/Runtime/Life.antt =====
-- The states in which a reload and a shutdown leave the runtime.
use sj_cloud.Prelude.{
  ℕ, String, true, false, Option, none, some, ◌≡◌, refl, ◌⊎◌, inl, inr, ap, subst, sym, ◌∙◌,
  Bool-cases, Bool, if◌then◌else◌,
}
use sj_cloud.Mesh.RuntimeState.{
  RuntimeState, booting, loading, ready, reloading, degraded, recovering, failed, stopping, stopped,
  same,
}
use sj_cloud.Mesh.Breaker.{Globals}
use sj_cloud.Mesh.Runtime.{
  Runtime, Outcome, thrown, Work, worked, call, ◌before◌, swallowed, is_valid_transition,
  transition_to, reload, reload_failed, shutdown,
}

abbrev pub IsReloaded : Outcome → Type 0
IsReloaded (after, e) =
    ((after.state ≡ ready) × (e ≡ none))
    ⊎ ((after.state ≡ failed) × ((t : String) × (e ≡ some (thrown t))))

reload_failed-IsReloaded :
    (now : ℕ) (g : Globals) (result : Globals × Option String)
    → IsReloaded (
        reload_failed now (
          worked (record { state = reloading; globals = g }) result before λ r.
          transition_to now ready r))
unfolding transition_to
reload_failed-IsReloaded now g (_, none) = inl (refl, refl)
reload_failed-IsReloaded now g (_, some t) = inr (refl, (t, refl))

from_ready :
    (now : ℕ) (work : Work) (g : Globals)
    → IsReloaded (reload now (some work) (record { state = ready; globals = g }))
unfolding reload transition_to
from_ready now work g =
    let g' = (transition_to now reloading (record { state = ready; globals = g })).0.globals in
    reload_failed-IsReloaded now g' (work g')

-- A reload of a ready runtime returns and leaves it ready, or throws the error of the function that
-- reloads and leaves it failed.
pub reload-ready :
    (now : ℕ) (work : Work) (r : Runtime) → r.state ≡ ready → IsReloaded (reload now (some work) r)
reload-ready now work r q =
    subst (λ s. IsReloaded (reload now (some work) (record { state = s; globals = r.globals })))
      (sym q) (from_ready now work r.globals)

-- the states that a runtime can be stopped from
abbrev pub stops : RuntimeState → Bool
stops ready = true
stops degraded = true
stops failed = true
stops stopping = true
stops stopped = true
stops _ = false

-- the state of a machine that was asked for another
abbrev pub next_state : RuntimeState → RuntimeState → RuntimeState
next_state s next = if same s next then s else (if is_valid_transition s next then next else s)

transition_to-state :
    (now : ℕ) (next : RuntimeState) (r : Runtime)
    → (swallowed (transition_to now next r)).state ≡ next_state r.state next
unfolding transition_to
transition_to-state now next r = elim (Bool-cases (same r.state next)) [
  | inl e ↦ rw e refl
  | inr e ↦ elim (Bool-cases (is_valid_transition r.state next)) [
    | inl v ↦ rw (e, v) refl
    | inr v ↦ rw (e, v) refl
  ]
]

worked-state :
    (r : Runtime) (result : Globals × Option String) → (swallowed (worked r result)).state ≡ r.state
worked-state r (g, none) = refl
worked-state r (g, some e) = refl

call-state : (c : Option Work) (r : Runtime) → (swallowed (call c r)).state ≡ r.state
call-state none r = refl
call-state (some f) r = worked-state r (f r.globals)

stops-next_state :
    (s : RuntimeState)
    → next_state (next_state s stopping) stopped ≡ (if stops s then stopped else s)
stops-next_state booting = refl
stops-next_state loading = refl
stops-next_state ready = refl
stops-next_state reloading = refl
stops-next_state degraded = refl
stops-next_state recovering = refl
stops-next_state failed = refl
stops-next_state stopping = refl
stops-next_state stopped = refl

-- A shutdown stops a runtime that is ready, degraded, failed, stopping or stopped; one in any other
-- state keeps its state. The function that cleans up, and its errors, make no difference.
pub shutdown-state :
    (now : ℕ) (cleanup : Option Work) (r : Runtime)
    → (shutdown now cleanup r).state ≡ (if stops r.state then stopped else r.state)
unfolding shutdown
shutdown-state now cleanup r =
    let stopping_r = swallowed (transition_to now stopping r) in
    transition_to-state now stopped (swallowed (call cleanup stopping_r))
    ∙ ap (λ s. next_state s stopped)
        (call-state cleanup stopping_r ∙ transition_to-state now stopping r)
    ∙ stops-next_state r.state
