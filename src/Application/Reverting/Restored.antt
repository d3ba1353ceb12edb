-- ===== src/Application/Reverting/Restored.antt =====
-- How a rollback ends where nothing outside fails, and what it does to the count of active
-- applications.
use sj_cloud.Prelude.{
  ◌+◌, ◌≡◌, refl, arith, true, false, ◌&&◌, none, some, ◌⊎◌, inl, inr, Bool-cases, if◌then◌else◌,
  ap, ◌∙◌, lookup, population, population-put, lookup-put_self,
}
use sj_cloud.Application.Deployment.{deploying, failed, is_active}
use sj_cloud.Application.Metering.{IsMetered, IsSaving, serves, agrees-active}
use sj_cloud.Application.Releases.{Release, find_release}
use sj_cloud.Application.Engine.{status_or, World, Config, Engine, get_application, saved}
use sj_cloud.Application.Engine.Steps.{saved-registered}
use sj_cloud.Application.Engine.Tracked.{start-IsTracked}
use sj_cloud.Application.Deploying.Ending.{Leaves}
use sj_cloud.Application.Reverting.{Outside, Job, run_rollback}
use sj_cloud.Application.Reverting.Course.{
  reverts, is_complete, reverted, revert_done, validate_target_complete, revert_refused,
  left_status, failed-registered,
}

-- Where the application and the target release are found, no save of a transition fails, the count of
-- active applications is the number of those with the status `ACTIVE`, and nothing else outside
-- throws (the container's files and the configuration are written): a rollback ends without an error
-- exactly if the release has an identifier and an image and the status is `DEPLOYING`, `ACTIVE`,
-- `FAILED` or missing, which counts as `FAILED`. The registered configuration is then the one that
-- was read with the image and version of the release, and its status is the one from before, not
-- `ACTIVE`. After an error it is the one that was read, with the status `FAILED` if the table has a
-- transition to it and else with its own.
pub run_rollback-Leaves :
    (job : Job) (o : Outside) (w : World) (c : Config) (r : Release)
    → get_application job.app_id w ≡ some c
    → find_release job.tenant_id job.app_id job.target_id w.ledgers ≡ some r
    → IsSaving w.platform
    → IsMetered w.platform
    → o.files ≡ none
    → o.saving ≡ none
    → Leaves job.app_id
        (run_rollback job o w)
        (is_complete r && reverts (status_or failed c.status))
        (if is_complete r && reverts (status_or failed c.status)
          then reverted r c
          else record c { status = left_status c.status })
unfolding run_rollback
run_rollback-Leaves job o w c r hc hr fs m ef es =
    let g : Engine = record { state = status_or failed c.status; config = c; world = w } in
    let t = start-IsTracked job.app_id failed c w refl hc (fs, m) in
    elim (Bool-cases (is_complete r && reverts (status_or failed c.status))) [
      | inl b ↦
          let k =
            revert_done job o r g ef es (validate_target_complete r g (ground (arith, b)))
              (ground (arith, b)) t in
          rw (hc, hr, b, k.1)
            (
              refl,
              saved-registered job.app_id k.0.config k.0.world k.4.owned ∙ ap (λ x. some x) k.3,
            )
      | inr b ↦
          let k = revert_refused job o r g b in
          rw (hc, hr, b, k.1) (refl, failed-registered job w c hc fs)
    ]

-- Under the same conditions, for a complete release and an application with the status `FAILED` or
-- `DEPLOYING`: the rollback ends without an error, the registered status is still the one from
-- before, and the count of active applications is one more than the number of those with the status
-- `ACTIVE`.
pub run_rollback_miscounts :
    (job : Job) (o : Outside) (w : World) (c : Config) (r : Release)
    → get_application job.app_id w ≡ some c
    → find_release job.tenant_id job.app_id job.target_id w.ledgers ≡ some r
    → IsSaving w.platform
    → IsMetered w.platform
    → o.files ≡ none
    → o.saving ≡ none
    → is_complete r ≡ true
    → (c.status ≡ some failed) ⊎ (c.status ≡ some deploying)
    → ((run_rollback job o w).1 ≡ none)
      × (lookup job.app_id (run_rollback job o w).0.platform.statuses ≡ some c.status)
      × ((run_rollback job o w).0.platform.metrics.application_active
          ≡ population is_active (run_rollback job o w).0.platform.statuses + 1)
unfolding run_rollback saved
run_rollback_miscounts job o w c r hc hr fs m ef es b d =
    let g : Engine = record { state = status_or failed c.status; config = c; world = w } in
    let v : reverts (status_or failed c.status) ≡ true = elim d [
      | inl e ↦ rw e refl
      | inr e ↦ rw e refl
    ] in
    let i : is_active c.status ≡ false = elim d [ inl e ↦ rw e refl | inr e ↦ rw e refl ] in
    let k =
      revert_done job o r g ef es (validate_target_complete r g b) v
        (start-IsTracked job.app_id failed c w refl hc (fs, m)) in
    let q = ap (λ x. x.status) k.3 in
    let t = k.4 in
    let j : serves k.0.state ≡ true = rw k.2 refl in
    let n =
      population-put is_active job.app_id t.registered.0 c.status k.0.world.platform.statuses
        t.registered.1 in
    let u = agrees-active t.registered.0 k.0.state t.registered.2 in
    rw (hc, hr, k.1, q, t.owned)
      (
        refl,
        lookup-put_self job.app_id c.status k.0.world.platform.statuses,
        ground (arith, n, i, j, u, t.metered.1),
      )
