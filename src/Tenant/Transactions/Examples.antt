-- ===== src/Tenant/Transactions/Examples.antt =====
-- A transaction whose world is the list of the workspaces that exist.
use sj_cloud.Prelude.{String, List, [], ◌∷◌, none, some, ◌≡◌, refl}
use sj_cloud.Tenant.Transactions.{Step, run, run_from, compensate_all}
use sj_cloud.Tenant.Transactions.Rollback.{Ends, run-Ends}

abbrev dropped : List String → List String
dropped [] = []
dropped (x ∷ xs) = xs

abbrev workspace : Step (List String)
workspace = record {
  name = "Workspace Creation";
  execute = λ w. ("acme" ∷ w, none);
  compensate = λ w. (dropped w, none);
}

abbrev broken_dns : Step (List String)
broken_dns = record {
  name = "DNS & Routing Setup";
  execute = λ w. (w, some "no zone");
  compensate = λ w. (w, none);
}

abbrev steps : List (Step (List String))
steps = workspace ∷ broken_dns ∷ []

abbrev before : List String
before = "globex" ∷ []

run_steps : run steps before ≡ ((run steps before).0, some "no zone")
unfolding run run_from compensate_all
run_steps = refl

run-Ends_example : Ends [] steps before (run steps before)
run-Ends_example = run-Ends steps before
