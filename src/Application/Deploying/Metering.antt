-- ===== src/Application/Deploying/Metering.antt =====
-- The count of active applications across whole deployments.
use sj_cloud.Prelude.{
  ◌≡◌, refl, String, List, [], ◌∷◌, Option, none, some, inl, inr, Option-cases, Bool-cases, str_eq,
  if◌then◌else◌, ap, sym, subst, ◌∙◌,
}
use sj_cloud.Application.Deployment.{
  DeploymentState, created, building, built, deploying, verifying, active, scaling, updating,
  failed, rollback, archived, same, is_valid_transition, is_active,
}
use sj_cloud.Application.Metering.{IsMetered, IsSaving, IsAccounted, serves}
use sj_cloud.Application.Containers
use sj_cloud.Application.Containers.{Containers}
use sj_cloud.Application.Releases.{Release, find_release, text_or}
use sj_cloud.Application.Engine.{
  World, Config, Engine, Outcome, ◌before◌, swallowed, ask, get_application, save_copy, Failure,
  status_or,
}
use sj_cloud.Application.Engine.Steps.{attempted, ask-attempted}
use sj_cloud.Application.Engine.Tracked.{
  IsTracked, IsTracked-world, ask-IsTracked, save_copy-IsTracked, before-IsTracked,
  ask_after-IsTracked, save_copy-IsMetered, start-IsTracked,
}
use sj_cloud.Application.Deploying.Starting.{start_container-IsTracked}
use sj_cloud.Application.Deploying.{
  Step, stop_old, start_new, verify_step, stop_previous, generate, Outside, Job, check_readiness,
  ask_start, run_step, execute, note, validate_release, deploy, deployed_copy, failed_copy,
  rethrown, mark_failed, run_with, run_deployment,
}

run_step-IsTracked :
    (job : Job) (o : Outside) (s : Step) (g : Engine)
    → IsTracked job.app_id g
    → IsTracked job.app_id (run_step job o s g).0
unfolding ask_start check_readiness
run_step-IsTracked job o stop_old g t =
    IsTracked-world job.app_id g
      (record g.world {
        containers = Containers.stop job.app_id o.has_directory g.world.containers;
      })
      refl t
run_step-IsTracked job o (start_new r) g t =
    start_container-IsTracked job.app_id job.tenant_id job.app_id o.files (ask_start job.app_id g)
      (ask-IsTracked job.app_id (if same g.state active then updating else deploying) g t)
run_step-IsTracked job o (verify_step r) g t =
    let k = ask-IsTracked job.app_id verifying g t in
    record { registered = k.registered; metered = k.metered; owned = k.owned }
run_step-IsTracked job o stop_previous g t = t

execute-IsTracked :
    (job : Job) (o : Outside) (steps : List Step) (g : Engine)
    → IsTracked job.app_id g
    → IsTracked job.app_id (execute job o steps g).0
unfolding execute
execute-IsTracked job o [] g t = t
execute-IsTracked job o (s ∷ rest) g t =
    before-IsTracked job.app_id (run_step job o s g) (execute job o rest)
      (run_step-IsTracked job o s g t) (execute-IsTracked job o rest)

note-IsTracked :
    (job : Job) (status : String) (g : Engine)
    → IsTracked job.app_id g
    → IsTracked job.app_id (note job status g)
note-IsTracked job status g t = record {
  registered = t.registered;
  metered = t.metered;
  owned = t.owned;
}

validate_release-IsTracked :
    (id : String) (c : Config) (r : Release) (g : Engine)
    → IsTracked id g
    → IsTracked id (validate_release c r g).0
unfolding validate_release
validate_release-IsTracked id c r g t =
    elim (Bool-cases (str_eq c.application_id r.application_id)) [ inl e ↦ rw e t | inr e ↦ rw e t ]

deploy-IsTracked :
    (job : Job) (o : Outside) (r : Release) (g : Engine)
    → IsTracked job.app_id g
    → IsTracked job.app_id (deploy job o r g).0
unfolding deploy
deploy-IsTracked job o r g t =
    ask_after-IsTracked job.app_id active
      (validate_release g.config r g before (λ h.
        execute job o (generate (text_or r.deployment_strategy "Rolling") r)
          (note job "DEPLOYING" h)))
      (λ h. save_copy o.saving (deployed_copy r (note job "ACTIVE" h)))
      (before-IsTracked job.app_id (validate_release g.config r g)
        (λ h.
          execute job o (generate (text_or r.deployment_strategy "Rolling") r)
            (note job "DEPLOYING" h))
        (validate_release-IsTracked job.app_id g.config r g t)
        (λ h u.
          execute-IsTracked job o (generate (text_or r.deployment_strategy "Rolling") r)
            (note job "DEPLOYING" h) (note-IsTracked job "DEPLOYING" h u)))
      (λ h q u.
        save_copy-IsTracked job.app_id o.saving (deployed_copy r (note job "ACTIVE" h))
          (ap (λ x. some x) (sym q))
          (record { registered = u.registered; metered = u.metered; owned = u.owned }))

-- the machine of a deployment that failed is not active
attempted-failed : (s : DeploymentState) → is_active (some failed) ≡ serves (attempted s failed)
unfolding is_valid_transition
attempted-failed created = refl
attempted-failed building = refl
attempted-failed built = refl
attempted-failed deploying = refl
attempted-failed verifying = refl
attempted-failed active = refl
attempted-failed scaling = refl
attempted-failed updating = refl
attempted-failed failed = refl
attempted-failed rollback = refl
attempted-failed archived = refl

rethrown-world : (e : Failure) (x : Outcome) → (rethrown e x).0 ≡ x.0.world
rethrown-world e (g, none) = refl
rethrown-world e (g, some f) = refl

mark_failed-IsAccounted :
    (job : Job) (o : Outside) (x : Outcome)
    → IsTracked job.app_id x.0
    → IsAccounted (mark_failed job o x).0.platform
mark_failed-IsAccounted job o (g, none) t = t.metered
mark_failed-IsAccounted job o (g, some e) t =
    let a = ask-attempted job.app_id failed g in
    let u = ask-IsTracked job.app_id failed g t in
    let h : Engine = swallowed (ask job.app_id failed g) in
    subst (λ w. IsAccounted w.platform)
      (sym (rethrown-world e (save_copy o.marking (failed_copy (note job "FAILED" h)))))
      (save_copy-IsMetered job.app_id o.marking (failed_copy (note job "FAILED" h))
        (attempted-failed g.state ∙ ap (λ x. serves x.state) (sym a.1))
        (record { registered = u.registered; metered = u.metered; owned = u.owned }))

run_with-IsAccounted :
    (job : Job) (o : Outside) (c : Config) (r : Option Release) (w : World)
    → get_application job.app_id w ≡ some c
    → IsAccounted w.platform
    → IsAccounted (run_with job o (some c) r w).0.platform
run_with-IsAccounted job o c none w h m = m
run_with-IsAccounted job o c (some r) w h m =
    mark_failed-IsAccounted job o
      (deploy job o r (record { state = status_or created c.status; config = c; world = w }))
      (deploy-IsTracked job o r
        (record { state = status_or created c.status; config = c; world = w })
        (start-IsTracked job.app_id created c w refl h m))

-- The same with the condition that no save of a transition fails.
pub run_deployment-IsAccounted :
    (job : Job) (o : Outside) (w : World)
    → IsAccounted w.platform
    → IsAccounted (run_deployment job o w).0.platform
unfolding run_deployment
run_deployment-IsAccounted job o w m = elim (Option-cases (get_application job.app_id w)) [
  | inl e ↦ rw (e, run_with) m
  | inr (c, e) ↦
      subst
        (λ x.
          IsAccounted
            (run_with job o x (find_release job.tenant_id job.app_id job.release_id w.ledgers)
              w).0.platform)
        (sym e)
        (run_with-IsAccounted job o c
          (find_release job.tenant_id job.app_id job.release_id w.ledgers) w e m)
]

-- Where no save of a configuration that a transition makes fails, and the count of active
-- applications is the number of those with the status `ACTIVE`, this is so after a deployment too,
-- whatever the application, the release and the strategy are, and whatever else fails: the check of
-- the release, a transition, the start of the container, the readiness, or the saving of the
-- configuration by the engine.
pub run_deployment-IsMetered :
    (job : Job) (o : Outside) (w : World)
    → IsSaving w.platform
    → IsMetered w.platform
    → IsMetered (run_deployment job o w).0.platform
run_deployment-IsMetered job o w s m = (run_deployment-IsAccounted job o w (s, m)).1
