-- ===== src/Configuration/Examples.antt =====
-- The theorems of the configuration at concrete inputs.
use sj_cloud.Prelude.{arith, String, Bool, List, [], ◌∷◌, none, false, str_eq, ok, err}
use sj_cloud.Configuration.{Manager, new_history}
use sj_cloud.Configuration.Redacted.{Call, loads, reloads, call_all, IsSafe, call_all-IsSafe}

abbrev is_secret : String → Bool
is_secret key = str_eq key "JWT_SECRET"

abbrev manager : Manager
manager = record {
  cache = none;
  history = new_history;
  loaded = false;
  reload_count = 0;
  error_count = 0;
}

abbrev calls : List Call
calls =
    loads (ok (("JWT_SECRET", "\"a\"") ∷ ("REGION", "\"eu\"") ∷ []))
    ∷ reloads (err "Missing required configuration variable: REGION")
    ∷ reloads (ok (("JWT_SECRET", "\"b\"") ∷ ("REGION", "\"us\"") ∷ []))
    ∷ []

call_all-IsSafe_example : IsSafe is_secret (call_all is_secret calls manager)
call_all-IsSafe_example = call_all-IsSafe is_secret calls manager (tt, omega arith)
