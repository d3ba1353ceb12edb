-- ===== src/Application/Deploying/Course.antt =====
-- The steps of a deployment whose container is started, by the strategy and the status of the
-- application.
use sj_cloud.Prelude.{
  ◌≡◌, refl, String, Bool, true, false, none, some, inl, inr, Bool-cases, str_eq, if◌then◌else◌, ap,
  ◌∙◌,
}
use sj_cloud.Application.Deployment.{
  DeploymentState, created, building, built, deploying, verifying, active, scaling, updating,
  failed, rollback, archived, same, is_valid_transition,
}
use sj_cloud.Application.Containers
use sj_cloud.Application.Releases.{Release}
use sj_cloud.Application.Engine.{Config, Engine, swallowed, ask}
use sj_cloud.Application.Engine.Steps.{attempted, ask-attempted}
use sj_cloud.Application.Deploying.Starting.{start_container_done}
use sj_cloud.Application.Deploying.{
  generate, Outside, Job, start_container, check_readiness, ask_start, execute, with_containers,
  policy_options,
}

-- the states from which a deployment can end, with a strategy that is `Recreate` or not
abbrev pub reaches : Bool → DeploymentState → Bool
reaches true verifying = true
reaches true scaling = true
reaches true rollback = true
reaches true _ = false
reaches false building = false
reaches false archived = false
reaches false _ = true

-- the state of the machine after the steps
abbrev pub started_state : DeploymentState → DeploymentState
started_state s = attempted s (if same s active then updating else deploying)

abbrev pub end_state : Bool → DeploymentState → DeploymentState
end_state true s = started_state s
end_state false s = attempted (started_state s) verifying

pub end_state-reaches :
    (b : Bool) (s : DeploymentState)
    → is_valid_transition (some (end_state b s)) active ≡ reaches b s
unfolding is_valid_transition
end_state-reaches true created = refl
end_state-reaches true building = refl
end_state-reaches true built = refl
end_state-reaches true deploying = refl
end_state-reaches true verifying = refl
end_state-reaches true active = refl
end_state-reaches true scaling = refl
end_state-reaches true updating = refl
end_state-reaches true failed = refl
end_state-reaches true rollback = refl
end_state-reaches true archived = refl
end_state-reaches false created = refl
end_state-reaches false building = refl
end_state-reaches false built = refl
end_state-reaches false deploying = refl
end_state-reaches false verifying = refl
end_state-reaches false active = refl
end_state-reaches false scaling = refl
end_state-reaches false updating = refl
end_state-reaches false failed = refl
end_state-reaches false rollback = refl
end_state-reaches false archived = refl

-- an engine in a state, with the copy that it began with
pub record IsAt (s : DeploymentState) (c : Config) (g : Engine) : Type 0 where
  pub at_state : g.state ≡ s
  pub at_config : g.config ≡ c

attempt-IsAt :
    (id : String) (to s : DeploymentState) (c : Config) (g : Engine)
    → IsAt s c g
    → IsAt (attempted s to) c (swallowed (ask id to g))
attempt-IsAt id to s c g t =
    let a = ask-attempted id to g in
    record {
      at_state = ap (λ x. x.state) a.1 ∙ ap (λ x. attempted x to) t.at_state;
      at_config = ap (λ x. x.config) a.1 ∙ t.at_config;
    }

start-IsAt :
    (job : Job) (o : Outside) (s : DeploymentState) (c : Config) (g : Engine)
    → o.files ≡ none
    → IsAt s c g
    → (h : Engine) × (start_container job.tenant_id job.app_id o.files (ask_start job.app_id g)
        ≡ (h, none))
      × IsAt (started_state s) c h
unfolding ask_start
start-IsAt job o s c g e t =
    let a = attempt-IsAt job.app_id (if same g.state active then updating else deploying) s c g t in
    let k = start_container_done job.tenant_id job.app_id o.files (ask_start job.app_id g) e in
    (
      with_containers k.0 (ask_start job.app_id g),
      rw k.1 refl,
      record {
        at_state =
            a.at_state
            ∙ ap (λ x. attempted s (if same x active then updating else deploying)) t.at_state;
        at_config = a.at_config;
      },
    )

-- the steps of a plan, none of which throws
pub execute-IsAt :
    (job : Job) (o : Outside) (strategy : String) (r : Release) (c : Config) (g : Engine)
    → o.files ≡ none
    → g.config ≡ c
    → (h : Engine) × (execute job o (generate strategy r) g ≡ (h, none))
      × IsAt (end_state (str_eq strategy "Recreate") g.state) c h
unfolding execute generate check_readiness
execute-IsAt job o strategy r c g e q = elim (Bool-cases (str_eq strategy "Recreate")) [
  | inl b ↦
      let d = with_containers (Containers.stop job.app_id o.has_directory g.world.containers) g in
      let k = start-IsAt job o g.state c d e (record { at_state = refl; at_config = q }) in
      (k.0, rw (b, k.1) refl, rw b k.2)
  | inr b ↦
      let k = start-IsAt job o g.state c g e (record { at_state = refl; at_config = q }) in
      let a = attempt-IsAt job.app_id verifying (started_state g.state) c k.0 k.2 in
      (
        check_readiness job.app_id o.answers (policy_options none)
            (swallowed (ask job.app_id verifying k.0)),
        rw (b, k.1) refl,
        rw b (record { at_state = a.at_state; at_config = a.at_config }),
      )
]
