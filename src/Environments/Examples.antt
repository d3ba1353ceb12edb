-- ===== src/Environments/Examples.antt =====
-- The theorems of the promotions at concrete inputs.
use sj_cloud.Prelude.{
  ◌≡◌, refl, String, true, false, List, [], ◌∷◌, none, some, lookup, if◌then◌else◌, str_eq, ok, ◌⊎◌,
}
use sj_cloud.Application.Deployment.{no_metrics}
use sj_cloud.Application.Engine.{World}
use sj_cloud.Application.Deploying.{Outside}
use sj_cloud.Environments.{Clock, new_window, is_frozen, get_environment, entry, is_window_open}
use sj_cloud.Environments.Promotions.{
  Site, Request, PromotionError, start_promotion, approve_promotion,
}
use sj_cloud.Environments.Gated.{IsGated}
use sj_cloud.Environments.Runs.{
  Event, starts, approves, rejects, freezes_env, happen_all, happen_all-IsGated,
}
use sj_cloud.Environments.Refusals.{Passes, start_promotion-Passes, approve_promotion_any}
use sj_cloud.Environments.Freezing.{
  Change, freezes, unfreezes, change_all, replay, change_all-replay,
}

-- small letters, of the names that are used here
abbrev lower : String → String
lower t = if str_eq t "Production" then "production" else t

abbrev world : World
world = record {
  platform = record { statuses = []; metrics = no_metrics; faults = [] };
  sources = [];
  ledgers = [];
  containers = record {
    states = [];
    monitored_apps = [];
    runtime_restart_total = 0;
    runtime_recovery_total = 0;
  };
  checks = [];
  deployments = [];
  rollbacks = [];
}

abbrev site : Site
site = record { freezes = []; window = new_window; approvals = []; promotions = []; world = world }

abbrev outside : Outside
outside = record {
  files = none;
  has_directory = true;
  answers = λ i. true;
  saving = none;
  marking = none;
}

abbrev monday : Clock
monday = record { day = 1; hour = 9 }

abbrev request_to : String → Request
request_to target = record {
  tenant_id = "acme";
  app_id = "shop";
  release_id = "rel-1";
  source_env = "staging";
  target_env = target;
}

abbrev events : List Event
events =
    starts monday "promo-1" 5 outside (request_to "Production")
    ∷ freezes_env "production"
    ∷ approves "promo-1" "ada" 6 outside
    ∷ rejects "promo-1" "ada" 7
    ∷ []

site-IsGated : IsGated lower site
unfolding lookup
site-IsGated id = refl

happen_all-IsGated_example : IsGated lower (happen_all lower events site)
happen_all-IsGated_example = happen_all-IsGated lower events site site-IsGated

start_promotion-Passes_example :
    ((e : PromotionError) × (start_promotion lower monday "promo-1" 5 outside
          (request_to "Production")
          site
        ≡ (site, some e)))
    ⊎ Passes lower monday site (request_to "Production")
start_promotion-Passes_example =
    start_promotion-Passes lower monday "promo-1" 5 outside (request_to "Production") site

staging_found :
    get_environment lower monday [] new_window "staging"
    ≡ ok (
        some (record {
          environment = record { name = "staging"; order = some 3; requires_approval = false };
          frozen = false;
          window_open = true;
        }))
unfolding get_environment entry is_frozen is_window_open
staging_found = refl

approve_promotion_any_example :
    approve_promotion "promo-1" "ada" 6 outside
      (record site { freezes = "production" ∷ []; window = new_window })
    ≡ (
      record (approve_promotion "promo-1" "ada" 6 outside site).0 {
        freezes = "production" ∷ [];
        window = new_window;
      },
      (approve_promotion "promo-1" "ada" 6 outside site).1,
    )
approve_promotion_any_example =
    approve_promotion_any "promo-1" "ada" 6 outside site ("production" ∷ []) new_window

abbrev changes : List Change
changes = freezes "Production" ∷ freezes "staging" ∷ unfreezes "production" ∷ []

change_all-replay_example :
    is_frozen lower "Production" (change_all lower changes [])
    ≡ replay lower changes (λ k. false) "production"
change_all-replay_example = change_all-replay lower changes "Production"
