-- ===== src/Configuration.antt =====
-- platform/shared/config: config-history.js, config-cache.js and config-manager.js. A value is its
-- JSON text. What the loader gives, the verdict of the validator and the secret keys of the schema
-- are arguments; events are left out.
pub mod Redacted
mod Examples
use sj_cloud.Prelude.{
  ℕ, ◌+◌, ◌-◌, String, Bool, true, false, not, List, [], ◌∷◌, ◌++◌, Option, none, some, Dict,
  lookup, str_eq, ltb, length, if◌then◌else◌, Result, ok, err,
}

abbrev pub Config : Type 0
Config = Dict String

-- `redact`, and the loop of `record`
unfoldable pub redact : (String → Bool) → Config → Config
redact is_secret [] = []
redact is_secret ((key, value) ∷ rest) =
    let others = redact is_secret rest in
    (key, if is_secret key then "\"[REDACTED]\"" else value) ∷ others

pub record Change : Type 0 where
  pub key : String
  pub from : Option String
  pub to : String

abbrev pub is_same : Option String → String → Bool
is_same none v = false
is_same (some u) v = str_eq v u

unfoldable pub changes : Config → Config → List Change
changes previous [] = []
changes previous ((key, value) ∷ rest) =
    let others = changes previous rest in
    if is_same (lookup key previous) value
    then others
    else record { key = key; from = lookup key previous; to = value } ∷ others

pub record Entry : Type 0 where
  pub version : ℕ
  pub changed : List Change
  pub config : Config

pub record History : Type 0 where
  pub records : List Entry
  pub version : ℕ

abbrev pub new_history : History
new_history = record { records = []; version = 1 }

abbrev pub shift : List Entry → List Entry
shift [] = []
shift (e ∷ rest) = rest

abbrev pub bounded : List Entry → List Entry
bounded l = if ltb 50 (length l) then shift l else l

abbrev pub changes_from : Option Config → Config → List Change
changes_from none c = []
changes_from (some previous) c = changes previous c

-- `record` of the history
unfoldable pub record_config : (String → Bool) → Config → Option Config → History → History
record_config is_secret config previous h =
    let redacted = redact is_secret config in
    record {
      records = bounded (
          h.records
          ++ (record {
            version = h.version;
            changed = changes_from previous redacted;
            config = redacted;
          }
              ∷ []));
      version = h.version + 1;
    }

abbrev pub get_current_version : History → ℕ
get_current_version h = h.version - 1

-- the manager with the cache and the history
pub record Manager : Type 0 where
  pub cache : Option Config
  pub history : History
  pub loaded : Bool
  pub reload_count : ℕ
  pub error_count : ℕ

abbrev pub redacted_cache : (String → Bool) → Option Config → Option Config
redacted_cache is_secret none = none
redacted_cache is_secret (some c) = some (redact is_secret c)

-- `load`, of what the loader gives after the validation, or the error of one of them
unfoldable pub load : (String → Bool) → Result String Config → Manager → Manager × Option String
load is_secret (err e) m = (record m { error_count = m.error_count + 1 }, some e)
load is_secret (ok raw) m = (
  record m {
    cache = some raw;
    history = record_config is_secret raw (redacted_cache is_secret m.cache) m.history;
    loaded = true;
  },
  none,
)

-- `reload`
unfoldable pub reload : (String → Bool) → Result String Config → Manager → Manager × Option String
reload is_secret given m = load is_secret given (record m { reload_count = m.reload_count + 1 })
