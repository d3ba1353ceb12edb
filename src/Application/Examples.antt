-- ===== src/Application/Examples.antt =====
-- The theorems of the deployment at concrete inputs.
use sj_cloud.Prelude.{List, [], ◌∷◌, some, ◌≡◌, refl, lookup}
use sj_cloud.Application.Deployment.{
  DeploymentState, building, built, deploying, verifying, active, scaling, created,
  is_valid_transition, Platform, no_metrics,
}
use sj_cloud.Application.Paths.{follow}
use sj_cloud.Application.Metering.{Action, register, ask}

abbrev path : List DeploymentState
path = building ∷ built ∷ deploying ∷ verifying ∷ active ∷ []

path_accepted : follow path created ≡ some active
unfolding follow is_valid_transition
path_accepted = refl

abbrev platform : Platform
platform = record { statuses = ("shop", some verifying) ∷ []; metrics = no_metrics; faults = [] }

shop_status : lookup "shop" platform.statuses ≡ some (some verifying)
unfolding lookup
shop_status = refl

abbrev actions : List Action
actions = register "blog" ∷ ask "shop" active ∷ ask "shop" scaling ∷ ask "blog" active ∷ []
