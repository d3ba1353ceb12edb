-- ===== src/Pipeline/Delivery.antt =====
-- The release that a run builds and deploys.
use sj_cloud.Prelude.{
  ◌≡◌, refl, arith, String, false, Option, none, some, lookup, lookup-put_self, Result, ok, err,
  str_eq, subst, sym, ap,
}
use sj_cloud.Application.Releases.{
  Release, Ledgers, ReleaseError, create_release, find_release, new_release,
}
use sj_cloud.Application.Releases.Ledger.{find_release-create_release, create_release-new_release}
use sj_cloud.Application.Deploying.{run_deployment}
use sj_cloud.Pipeline.Executor.{Step}
use sj_cloud.Pipeline.Context.{add_step_result, set_env}
use sj_cloud.Pipeline.Runner.{
  Outside, Run, released, build_request, build_step, deploy_told, deploy_step,
}

-- what a build that does not throw leaves
released-some :
    (stage : String) (step : Step) (r s : Run) (x : Result ReleaseError (Release × Ledgers))
    → released stage step r x ≡ (s, none)
    → (a : Release) × (l : Ledgers) × (x ≡ ok (a, l))
      × (lookup "RELEASE_ID" s.context.env ≡ some a.release_id)
      × (s.world.ledgers ≡ l)
unfolding set_env add_step_result
released-some stage step r s (err e) h = ground (arith, h)
released-some stage step r s (ok (a, l)) h =
    let q = ap (λ y. y.0) h in
    (
      a,
      l,
      refl,
      subst (λ y. lookup "RELEASE_ID" y.context.env ≡ some a.release_id) q
          (lookup-put_self "RELEASE_ID" a.release_id r.context.env),
      sym (ap (λ y. y.world.ledgers) q),
    )

-- the release that a build asks for
abbrev pub build_release : Outside → String → String → Option String → Release
build_release o tenant app image = new_release o.digest o.now (build_request tenant app image)

-- A build that does not throw creates the release that it asks for. Where the identifier of that
-- release is not empty and no earlier release of the application has it, the deploy step that
-- follows, at any stage and whatever identifier it draws, runs the deployment of this release, and
-- the release is found under this identifier.
pub deploy_step-build_step :
    (o u : Outside) (tenant app stage stage2 : String) (step step2 : Step) (image : Option String)
    (r s : Run)
    → o.build ≡ ok image
    → build_step o tenant app stage step r ≡ (s, none)
    → find_release tenant app (build_release o tenant app image).release_id r.world.ledgers ≡ none
    → str_eq (build_release o tenant app image).release_id "" ≡ false
    → (deploy_step u tenant app stage2 step2 s
        ≡ deploy_told stage2 step2 s (
            run_deployment
              (record {
                app_id = app;
                tenant_id = tenant;
                release_id = (build_release o tenant app image).release_id;
                now = u.now;
              })
              u.deploying
              s.world))
      × (find_release tenant app (build_release o tenant app image).release_id s.world.ledgers
          ≡ some (build_release o tenant app image))
unfolding build_step deploy_step
deploy_step-build_step o u tenant app stage stage2 step step2 image r s hb h fresh full =
    let q = build_request tenant app image in
    let b : released stage step r (create_release o.digest o.now q r.world.ledgers) ≡ (s, none) =
      rw hb at h in
    let k = released-some stage step r s (create_release o.digest o.now q r.world.ledgers) b in
    let n = create_release-new_release o.digest o.now q r.world.ledgers k.1 k.0 k.2 in
    let f =
      find_release-create_release o.digest o.now q r.world.ledgers k.1 k.0 k.2 (rw (sym n) fresh) in
    (rw (k.3, sym n, full) refl, rw (k.4, n) f.1)
