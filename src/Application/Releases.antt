-- ===== src/Application/Releases.antt =====
-- platform/application-manager/releases: release.js, release-validator.js, release-history.js,
-- release-manager.js and release-diff.js. The checksum (SHA-256 of the release as JSON) is an
-- argument, and the ledger files are a state in memory.
pub mod Ledger
use sj_cloud.Prelude.{
  ℕ, String, Bool, true, false, not, ◌||◌, ◌&&◌, List, [], ◌∷◌, ◌++◌, Option, none, some, Dict,
  lookup, put, find, str_eq, to_text, if◌then◌else◌, Result, ok, err, map, some_of, ◌>>=◌,
}
use Prim.Native.String.{◌++◌ as join}
use sj_cloud.Application.Readiness.{Options}

pub record Release : Type 0 where
  pub release_id : String
  pub application_id : String
  pub tenant_id : String
  pub image_digest : String
  pub environment_snapshot : Dict String
  pub secrets_snapshot : Dict String
  pub deployment_strategy : String
  pub health_policy : Options
  pub runtime_version : String
  pub timestamp : ℕ
  pub checksum : String

-- `text || other`
abbrev pub text_or : String → String → String
text_or t other = if str_eq t "" then other else t

-- what `createRelease` is given
pub record Request : Type 0 where
  pub app_id : String
  pub tenant_id : String
  pub image_digest : String
  pub strategy : String
  pub health : Options
  pub env_snapshot : Dict String
  pub secrets_snapshot : Dict String

-- the constructor of `Release`, as `createRelease` calls it
unfoldable pub new_release : (Release → String) → ℕ → Request → Release
new_release digest now q =
    let raw : Release = record {
      release_id = join "rel-" (to_text now);
      application_id = q.app_id;
      tenant_id = q.tenant_id;
      image_digest = q.image_digest;
      environment_snapshot = q.env_snapshot;
      secrets_snapshot = q.secrets_snapshot;
      deployment_strategy = text_or q.strategy "Rolling";
      health_policy = q.health;
      runtime_version = "1.0.0";
      timestamp = now;
      checksum = "";
    } in
    record raw { checksum = digest raw }

pub data ReleaseError : Type 0 where
  missing_application_id missing_image_digest missing_checksum : ReleaseError

-- `validate`
abbrev pub validate : Release → Result ReleaseError (Unit {0})
validate r =
    if str_eq r.application_id ""
    then err missing_application_id
    else if str_eq r.image_digest ""
    then err missing_image_digest
    else if str_eq r.checksum ""
    then err missing_checksum
    else ok tt

-- the ledger of every application of every tenant
abbrev pub Ledgers : Type 0
Ledgers = Dict (Dict (List Release))

abbrev pub ledgers_of : Option (Dict (List Release)) → Dict (List Release)
ledgers_of none = []
ledgers_of (some m) = m

abbrev pub ledger_of : Option (List Release) → List Release
ledger_of none = []
ledger_of (some l) = l

-- `getReleases`; a ledger that is missing is empty
unfoldable pub get_releases : String → String → Ledgers → List Release
get_releases tenant_id app_id ledgers =
    ledger_of (lookup app_id (ledgers_of (lookup tenant_id ledgers)))

-- `record`
unfoldable pub record_release : String → String → Release → Ledgers → Ledgers
record_release tenant_id app_id r ledgers =
    put tenant_id
      (put app_id (get_releases tenant_id app_id ledgers ++ (r ∷ []))
        (ledgers_of (lookup tenant_id ledgers)))
      ledgers

-- `createRelease`
unfoldable pub create_release :
    (Release → String) → ℕ → Request → Ledgers → Result ReleaseError (Release × Ledgers)
create_release digest now q ledgers =
    let r = new_release digest now q in
    validate r >>= λ _. ok (r, record_release q.tenant_id q.app_id r ledgers)

abbrev pub last : List Release → Option Release
last [] = none
last (r ∷ []) = some r
last (r ∷ s ∷ rest) = last (s ∷ rest)

-- `getLatestRelease`
unfoldable pub get_latest_release : String → String → Ledgers → Option Release
get_latest_release tenant_id app_id ledgers = last (get_releases tenant_id app_id ledgers)

abbrev pub has_id : String → Release → Bool
has_id id r = str_eq r.release_id id

-- `getReleases(…).find(r => r.release_id === id)`
unfoldable pub find_release : String → String → String → Ledgers → Option Release
find_release tenant_id app_id id ledgers = find (has_id id) (get_releases tenant_id app_id ledgers)
