-- ===== src/Application/Reverting/Course.antt =====
-- The steps of a rollback, and what it leaves where it is refused.
use sj_cloud.Prelude.{
  err, ◌≡◌, refl, arith, String, Bool, true, false, ◌&&◌, not, Option, none, some, inl, inr,
  Bool-cases, str_eq, if◌then◌else◌, sym, subst, ◌∙◌, lookup,
}
use sj_cloud.Application.Deployment.{
  DeploymentState, created, building, built, deploying, verifying, active, scaling, updating,
  failed, rollback, archived, is_valid_transition, Platform, transition_to,
}
use sj_cloud.Application.Metering.{IsSaving, transition_to-written, lookup-persisted}
use sj_cloud.Application.Releases.{Release}
use sj_cloud.Application.Engine.{
  status_or, swallowed, ask, World, Config, Engine, get_application, saved, Failure, missing_field,
  refused,
}
use sj_cloud.Application.Engine.Steps.{
  ask_accepted, ask-refused, in_state, save_copy-nothing, config_of-some,
}
use sj_cloud.Application.Engine.Tracked.{IsTracked, ask-IsTracked}
use sj_cloud.Application.Deploying.{with_containers, check_readiness}
use sj_cloud.Application.Deploying.Starting.{start_container_done}
use sj_cloud.Application.Reverting.{Outside, Job, validate_target, note, reverted_copy, revert}

-- the states from which a rollback begins
abbrev pub reverts : DeploymentState → Bool
reverts deploying = true
reverts active = true
reverts failed = true
reverts _ = false

pub reverts-table : (s : DeploymentState) → is_valid_transition (some s) rollback ≡ reverts s
unfolding is_valid_transition
reverts-table created = refl
reverts-table building = refl
reverts-table built = refl
reverts-table deploying = refl
reverts-table verifying = refl
reverts-table active = refl
reverts-table scaling = refl
reverts-table updating = refl
reverts-table failed = refl
reverts-table rollback = refl
reverts-table archived = refl

abbrev pub is_complete : Release → Bool
is_complete r = not (str_eq r.release_id "") && not (str_eq r.image_digest "")

abbrev pub reverted : Release → Config → Config
reverted r c = record c { source = record { image = r.image_digest; version = r.runtime_version } }

-- what the `try` block leaves when it does not throw: a tracked engine in the state `ACTIVE`, whose
-- copy, with the status of the start, is saved
pub revert_done :
    (job : Job) (o : Outside) (r : Release) (g : Engine)
    → o.files ≡ none
    → o.saving ≡ none
    → validate_target r g ≡ (g, none)
    → reverts g.state ≡ true
    → IsTracked job.app_id g
    → (h : Engine) × (revert job o r g ≡ (record h { world = saved h.config h.world }, none))
      × (h.state ≡ active)
      × (h.config ≡ reverted r g.config)
      × IsTracked job.app_id h
unfolding revert is_valid_transition check_readiness
revert_done job o r g ef es ev v t =
    let a = ask_accepted job.app_id rollback g (reverts-table g.state ∙ v) in
    let h1 : Engine = note job "STARTED" (in_state rollback a.0 g) in
    let t1 = subst (λ x. IsTracked job.app_id x.0) a.1 (ask-IsTracked job.app_id rollback g t) in
    let k = start_container_done job.tenant_id job.app_id o.files h1 ef in
    let h2 : Engine = with_containers k.0 h1 in
    let t2 : IsTracked job.app_id h2 = record {
      registered = t1.registered;
      metered = t1.metered;
      owned = t1.owned;
    } in
    let b = ask_accepted job.app_id verifying h2 refl in
    let u2 = subst (λ x. IsTracked job.app_id x.0) b.1 (ask-IsTracked job.app_id verifying h2 t2) in
    let h3 : Engine =
      check_readiness job.app_id o.answers r.health_policy (in_state verifying b.0 h2) in
    let t3 : IsTracked job.app_id h3 = record {
      registered = u2.registered;
      metered = u2.metered;
      owned = u2.owned;
    } in
    let c = ask_accepted job.app_id active h3 refl in
    let u3 = subst (λ x. IsTracked job.app_id x.0) c.1 (ask-IsTracked job.app_id active h3 t3) in
    let h4 : Engine = reverted_copy r (note job "COMPLETED" (in_state active c.0 h3)) in
    (
      h4,
      rw (ev, a.1, k.1, b.1, c.1, save_copy-nothing o.saving h4 es) refl,
      refl,
      refl,
      record { registered = u3.registered; metered = u3.metered; owned = u3.owned },
    )

pub validate_target_complete :
    (r : Release) (g : Engine) → is_complete r ≡ true → validate_target r g ≡ (g, none)
unfolding validate_target
validate_target_complete r g h = ground (arith, h)

pub validate_target_incomplete :
    (r : Release) (g : Engine)
    → is_complete r ≡ false
    → (e : Failure) × (validate_target r g ≡ (g, some e))
unfolding validate_target
validate_target_incomplete r g h = elim (Bool-cases (str_eq r.release_id "")) [
  | inl e ↦ (missing_field "release_id", rw e refl)
  | inr e ↦ elim (Bool-cases (str_eq r.image_digest "")) [
    | inl f ↦ (missing_field "image_digest", rw (e, f) refl)
    | inr f ↦ ground (arith, h, e, f)
  ]
]

-- where the check or the first transition refuses
pub revert_refused :
    (job : Job) (o : Outside) (r : Release) (g : Engine)
    → is_complete r && reverts g.state ≡ false
    → (e : Failure) × (revert job o r g ≡ (g, some e))
unfolding revert
revert_refused job o r g h = elim (Bool-cases (is_complete r)) [
  | inr b ↦ let k = validate_target_incomplete r g b in (k.0, rw k.1 refl)
  | inl b ↦
      let v : is_valid_transition (some g.state) rollback ≡ false =
        reverts-table g.state ∙ ground (arith, h, b) in
      (
        refused (record { from = some g.state; to = rollback }),
        rw (validate_target_complete r g b, ask-refused job.app_id rollback g v) refl,
      )
]

-- the status after a transition to `FAILED` that is accepted, or not
abbrev pub left_status : Option DeploymentState → Option DeploymentState
left_status s = if is_valid_transition (some (status_or failed s)) failed then some failed else s

pub start-source :
    (id : String) (w : World) (c : Config)
    → get_application id w ≡ some c
    → lookup id w.sources ≡ some c.source
unfolding get_application
start-source id w c h =
    (config_of-some id (lookup id w.platform.statuses) (lookup id w.sources) c h).2

pub transition_to-refused :
    (s to : DeploymentState) (p : Platform) (id : String)
    → is_valid_transition (some s) to ≡ false
    → transition_to id to (some s) p ≡ err (record { from = some s; to = to })
unfolding transition_to
transition_to-refused s to p id v = rw v refl

-- what the transition to `FAILED` leaves registered
pub failed-registered :
    (job : Job) (w : World) (c : Config)
    → get_application job.app_id w ≡ some c
    → IsSaving w.platform
    → let g : Engine = record { state = status_or failed c.status; config = c; world = w } in
      get_application job.app_id (note job "FAILED" (swallowed (ask job.app_id failed g))).world
      ≡ some (record c { status = left_status c.status })
unfolding get_application ask
failed-registered job w c h fs =
    let k =
      config_of-some job.app_id (lookup job.app_id w.platform.statuses)
        (lookup job.app_id w.sources) c h in
    let s = status_or failed c.status in
    elim (Bool-cases (is_valid_transition (some s) failed)) [
      | inl v ↦
          rw
            (
              transition_to-written job.app_id c.status s failed w.platform k.1 fs v,
              lookup-persisted job.app_id c.status failed w.platform.statuses k.1,
              k.2,
              v,
              sym k.0,
            )
            refl
      | inr v ↦
          rw (transition_to-refused s failed w.platform job.app_id v, k.1, k.2, v, sym k.0) refl
    ]
