-- ===== src/Application/Deploying/Ending.antt =====
-- How a deployment ends where nothing outside fails, by the strategy and the status of the
-- application.
use sj_cloud.Prelude.{
  ◌≡◌, refl, arith, String, Bool, true, false, ◌&&◌, Option, none, some, inl, inr, Bool-cases,
  str_eq, if◌then◌else◌, sym, subst,
}
use sj_cloud.Application.Deployment.{created, active, failed, is_valid_transition}
use sj_cloud.Application.Releases.{Release, find_release, text_or}
use sj_cloud.Application.Engine.{
  World, Config, Engine, Outcome, ◌before◌, ask, get_application, save_copy, Failure,
  release_of_other, refused, status_or,
}
use sj_cloud.Application.Engine.Steps.{
  attempted, ask-attempted, ask_accepted, ask-refused, in_state, get_application-owned,
  save_copy-nothing, saved-registered,
}
use sj_cloud.Application.Deploying.Course.{reaches, end_state-reaches, execute-IsAt}
use sj_cloud.Application.Deploying.{
  Outside, Job, note, validate_release, deploy, deployed_copy, failed_copy, mark_failed,
  run_deployment,
}

abbrev pub is_recreate : Release → Bool
is_recreate r = str_eq (text_or r.deployment_strategy "Rolling") "Recreate"

abbrev pub is_none {ℓ} : {A : Type ℓ} → Option A → Bool
is_none none = true
is_none (some a) = false

pub is_none-none {ℓ} : {A : Type ℓ} (x : Option A) → is_none x ≡ true → x ≡ none
is_none-none none h = refl
is_none-none (some a) h = ground arith

-- what a run says and leaves registered
abbrev pub Leaves : String → World × Option Failure → Bool → Config → Type 0
Leaves id x done c = (is_none x.1 ≡ done) × (get_application id x.0 ≡ some c)

abbrev pub deployed : Release → Config → Config
deployed r c = record c {
  status = some active;
  source = record { image = r.image_digest; version = r.runtime_version };
}

-- the `catch` block
mark_failed-Leaves :
    (job : Job) (o : Outside) (g : Engine) (e : Failure)
    → o.marking ≡ none
    → g.config.application_id ≡ job.app_id
    → Leaves job.app_id
        (mark_failed job o (g, some e))
        false
        (record g.config { status = some failed })
mark_failed-Leaves job o g e q i =
    let a = ask-attempted job.app_id failed g in
    let h : Engine = in_state (attempted g.state failed) a.0 g in
    let w = (note job "FAILED" h).world in
    rw (a.1, save_copy-nothing o.marking (failed_copy (note job "FAILED" h)) q)
      (refl, saved-registered job.app_id (record g.config { status = some failed }) w i)

-- the rest of the `try` block, from the transition to `ACTIVE`
finish : Job → Outside → Release → Engine → Outcome
finish job o r g =
    ask job.app_id active g before (λ h. save_copy o.saving (deployed_copy r (note job "ACTIVE" h)))

finish-Leaves :
    (job : Job) (o : Outside) (r : Release) (g : Engine)
    → o.saving ≡ none
    → o.marking ≡ none
    → g.config.application_id ≡ job.app_id
    → Leaves job.app_id
        (mark_failed job o (finish job o r g))
        (is_valid_transition (some g.state) active)
        (if is_valid_transition (some g.state) active
          then deployed r g.config
          else record g.config { status = some failed })
unfolding finish
finish-Leaves job o r g es em i = elim (Bool-cases (is_valid_transition (some g.state) active)) [
  | inl v ↦
      let a = ask_accepted job.app_id active g v in
      let h : Engine = deployed_copy r (note job "ACTIVE" (in_state active a.0 g)) in
      rw (v, a.1, save_copy-nothing o.saving h es)
        (refl, saved-registered job.app_id (deployed r g.config) h.world i)
  | inr v ↦
      rw (v, ask-refused job.app_id active g v)
        (mark_failed-Leaves job o g (refused (record { from = some g.state; to = active })) em i)
]

-- the `try` block and what follows it, for a release that the check accepts or not
deploy-Leaves :
    (job : Job) (o : Outside) (r : Release) (c : Config) (w : World)
    → o.files ≡ none
    → o.saving ≡ none
    → o.marking ≡ none
    → c.application_id ≡ job.app_id
    → Leaves job.app_id
        (mark_failed job o
          (deploy job o r (record { state = status_or created c.status; config = c; world = w })))
        (str_eq c.application_id r.application_id
          && reaches (is_recreate r) (status_or created c.status))
        (if str_eq c.application_id r.application_id
            && reaches (is_recreate r) (status_or created c.status)
          then deployed r c
          else record c { status = some failed })
unfolding deploy validate_release finish
deploy-Leaves job o r c w ef es em i =
    let g : Engine = record { state = status_or created c.status; config = c; world = w } in
    elim (Bool-cases (str_eq c.application_id r.application_id)) [
      | inr b ↦ rw b (mark_failed-Leaves job o g (release_of_other r.application_id) em i)
      | inl b ↦
          let k =
            execute-IsAt job o (text_or r.deployment_strategy "Rolling") r c
              (note job "DEPLOYING" g) ef refl in
          let f = finish-Leaves job o r k.0 es em (rw k.2.at_config i) in
          rw
            (
              b,
              k.1,
              sym (end_state-reaches (is_recreate r) (status_or created c.status)),
              sym k.2.at_state,
            )
            (subst
              (λ x.
                Leaves job.app_id (mark_failed job o (finish job o r k.0))
                  (is_valid_transition (some k.0.state) active)
                  (if is_valid_transition (some k.0.state) active
                    then deployed r x
                    else record x { status = some failed }))
              k.2.at_config f)
    ]

-- Where the application and the release are found and nothing outside throws (the container's files
-- and the configuration are written): a deployment ends without an error exactly if the release is
-- of this application and, with the strategy `Recreate`, the status is `VERIFYING`, `SCALING` or
-- `ROLLBACK`, with any other strategy, neither `BUILDING` nor `ARCHIVED` (a status that is missing
-- counts as `CREATED`). The registered
-- configuration is then the one that was read with the status `ACTIVE` and the image and version of
-- the release; after an error it is the one that was read with the status `FAILED`.
pub run_deployment-Leaves :
    (job : Job) (o : Outside) (w : World) (c : Config) (r : Release)
    → get_application job.app_id w ≡ some c
    → find_release job.tenant_id job.app_id job.release_id w.ledgers ≡ some r
    → o.files ≡ none
    → o.saving ≡ none
    → o.marking ≡ none
    → Leaves job.app_id
        (run_deployment job o w)
        (str_eq c.application_id r.application_id
          && reaches (is_recreate r) (status_or created c.status))
        (if str_eq c.application_id r.application_id
            && reaches (is_recreate r) (status_or created c.status)
          then deployed r c
          else record c { status = some failed })
unfolding run_deployment
run_deployment-Leaves job o w c r hc hr ef es em =
    rw (hc, hr) (deploy-Leaves job o r c w ef es em (get_application-owned job.app_id w c hc))
