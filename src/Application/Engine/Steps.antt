-- ===== src/Application/Engine/Steps.antt =====
-- What the machine of an engine, its caught transitions and its save do to what the engine holds.
use sj_cloud.Prelude.{
  ◌≡◌, refl, arith, String, true, false, Option, none, some, inl, inr, Bool-cases, lookup,
  lookup-put_self, if◌then◌else◌, subst,
}
use sj_cloud.Application.Deployment.{
  DeploymentState, Platform, is_valid_transition, transition_to, track, persisted, next_fault,
  later_faults,
}
use sj_cloud.Application.Engine.{
  World, Config, Source, Engine, swallowed, ask, get_application, config_of, saved,
  save_application, save_copy, refused,
}

-- the state after a transition whose refusal is caught
abbrev pub attempted : DeploymentState → DeploymentState → DeploymentState
attempted s to = if is_valid_transition (some s) to then to else s

-- what an accepted transition leaves
abbrev pub in_state : DeploymentState → Platform → Engine → Engine
in_state to p g = record g { state = to; world = record g.world { platform = p } }

pub ask_accepted :
    (id : String) (to : DeploymentState) (g : Engine)
    → is_valid_transition (some g.state) to ≡ true
    → (p : Platform) × (ask id to g ≡ (in_state to p g, none))
unfolding ask transition_to
ask_accepted id to g v = (
  record {
    statuses =
        persisted (next_fault g.world.platform.faults) id to (lookup id g.world.platform.statuses)
          g.world.platform.statuses;
    metrics = track (some g.state) to g.world.platform.metrics;
    faults = later_faults g.world.platform.faults;
  },
  rw v refl,
)

pub ask-refused :
    (id : String) (to : DeploymentState) (g : Engine)
    → is_valid_transition (some g.state) to ≡ false
    → ask id to g ≡ (g, some (refused (record { from = some g.state; to = to })))
unfolding ask transition_to
ask-refused id to g v = rw v refl

-- what a caught transition leaves
pub ask-attempted :
    (id : String) (to : DeploymentState) (g : Engine)
    → (p : Platform) × (swallowed (ask id to g) ≡ in_state (attempted g.state to) p g)
ask-attempted id to g = elim (Bool-cases (is_valid_transition (some g.state) to)) [
  | inl v ↦ let a = ask_accepted id to g v in (a.0, rw (v, a.1) refl)
  | inr v ↦ (g.world.platform, rw (v, ask-refused id to g v) refl)
]

pub config_of-some :
    (id : String) (s : Option (Option DeploymentState)) (src : Option Source) (c : Config)
    → config_of id s src ≡ some c
    → (c.application_id ≡ id) × (s ≡ some c.status) × (src ≡ some c.source)
config_of-some id none src c h = ground arith
config_of-some id (some s) none c h = ground arith
config_of-some id (some s) (some src) c h = ground arith

pub get_application-saved :
    (c : Config) (w : World) → get_application c.application_id (saved c w) ≡ some c
unfolding get_application saved
get_application-saved c w =
    rw
      (
        lookup-put_self c.application_id c.status w.platform.statuses,
        lookup-put_self c.application_id c.source w.sources,
      )
      refl

pub save_copy-nothing :
    (e : Option String) (g : Engine)
    → e ≡ none
    → save_copy e g ≡ (record g { world = saved g.config g.world }, none)
unfolding save_copy save_application
save_copy-nothing none g h = refl
save_copy-nothing (some x) g h = ground arith

-- a copy that is saved is the registered configuration
pub saved-registered :
    (id : String) (c : Config) (w : World)
    → c.application_id ≡ id
    → get_application id (saved c w) ≡ some c
saved-registered id c w i =
    subst (λ x. get_application x (saved c w) ≡ some c) i (get_application-saved c w)

-- a copy is of the application that it was read for
pub get_application-owned :
    (id : String) (w : World) (c : Config) → get_application id w ≡ some c → c.application_id ≡ id
unfolding get_application
get_application-owned id w c h =
    (config_of-some id (lookup id w.platform.statuses) (lookup id w.sources) c h).0
