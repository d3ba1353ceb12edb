-- ===== src/Application/Reverting/Undone.antt =====
-- A deployment and the rollback of it.
use sj_cloud.Prelude.{
  ◌≡◌, refl, true, false, ◌&&◌, none, some, str_eq, if◌then◌else◌, sym, ap, subst, ◌∙◌,
}
use sj_cloud.Application.Deployment.{created, active, failed}
use sj_cloud.Application.Metering.{IsMetered, IsSaving}
use sj_cloud.Application.Releases.{Release, find_release}
use sj_cloud.Application.Engine.{World, Config, get_application, status_or}
use sj_cloud.Application.Deploying
use sj_cloud.Application.Deploying.{run_deployment}
use sj_cloud.Application.Deploying.Course.{reaches}
use sj_cloud.Application.Deploying.Ending.{
  is_none-none, Leaves, is_recreate, deployed, run_deployment-Leaves,
}
use sj_cloud.Application.Deploying.Metering.{run_deployment-IsAccounted}
use sj_cloud.Application.Reverting
use sj_cloud.Application.Reverting.{run_rollback}
use sj_cloud.Application.Reverting.Restored.{run_rollback-Leaves}
use sj_cloud.Application.Reverting.Course.{is_complete, reverted}

-- An application with the status `ACTIVE`, the image and the version of a complete release is
-- deployed to a second release of this application, whose strategy is not `Recreate`, and then
-- rolled back to the first. Where both releases are found, no save of a transition fails, the count of active applications is the
-- number of those with the status `ACTIVE` before, and nothing else outside throws: both calls end
-- without an error, and the registered configuration is the first one again.
pub run_rollback-run_deployment :
    (d : Deploying.Job) (j : Reverting.Job) (o : Deploying.Outside) (u : Reverting.Outside)
    → (w : World) (c : Config) (first second : Release) → j.app_id ≡ d.app_id
    → get_application d.app_id w ≡ some c
    → c.status ≡ some active
    → c.source ≡ record { image = first.image_digest; version = first.runtime_version }
    → is_complete first ≡ true
    → find_release d.tenant_id d.app_id d.release_id w.ledgers ≡ some second
    → find_release j.tenant_id d.app_id j.target_id (run_deployment d o w).0.ledgers ≡ some first
    → str_eq c.application_id second.application_id ≡ true
    → is_recreate second ≡ false
    → IsSaving w.platform
    → IsMetered w.platform
    → (o.files ≡ none) × (o.saving ≡ none) × (o.marking ≡ none)
    → (u.files ≡ none) × (u.saving ≡ none)
    → ((run_deployment d o w).1 ≡ none)
      × ((run_rollback j u (run_deployment d o w).0).1 ≡ none)
      × (get_application d.app_id (run_rollback j u (run_deployment d o w).0).0 ≡ some c)
run_rollback-run_deployment d j o u w c first second ij hc ha hs hf h2 h1 ho hr fs m co cu =
    let w2 = (run_deployment d o w).0 in
    let done : str_eq c.application_id second.application_id
          && reaches (is_recreate second) (status_or created c.status)
        ≡ true =
      rw (ho, hr, ha) refl in
    let l = run_deployment-Leaves d o w c second hc h2 co.0 co.1 co.2 in
    let n = run_deployment-IsAccounted d o w (fs, m) in
    let g2 : get_application d.app_id w2 ≡ some (deployed second c) =
      l.1
      ∙ ap (λ b. some (if b then deployed second c else record c { status = some failed })) done in
    let k =
      run_rollback-Leaves j u w2 (deployed second c) first (rw ij g2) (rw ij h1) n.0 n.1 cu.0
        cu.1 in
    let r : Leaves j.app_id (run_rollback j u w2) true (reverted first (deployed second c)) =
      rw hf at k in
    (
      is_none-none (run_deployment d o w).1 (l.0 ∙ done),
      is_none-none (run_rollback j u w2).1 r.0,
      subst (λ x. get_application x (run_rollback j u w2).0 ≡ some c) ij
          (r.1 ∙ λ i.
            some
              (record { application_id = c.application_id; status = sym ha i; source = sym hs i })),
    )
