-- ===== src/Secrets.antt =====
-- platform/secrets: secret-manager.js, secret-provider.js, version-manager.js, validator.js,
-- secret-rotation.js and the guards of secret-encryption.js. The files of a tenant are entries by its
-- identifier, and can be read and written. The cipher is an argument, and so are the clock, the
-- initial vectors, the random draws, `includes` and the length of a string. history.log and the
-- events are left out; no name is that of a member of Object.prototype.
pub mod Versions
pub mod Restored
mod Examples
use sj_cloud.Prelude.{
  ℕ, ◌+◌, String, Bool, true, false, ◌&&◌, not, List, [], ◌∷◌, ◌++◌, map, Option, none, some, Dict,
  lookup, put, remove, str_eq, ltb, ◌==◌, length, find, if◌then◌else◌, Result, ok, err,
}
use Prim.Native.String.{◌++◌ as str_append}

pub record Outside : Type 0 where
  pub seal : String → String → String
  pub unseal : String → String
  pub includes : String → String → Bool
  pub size : String → ℕ

abbrev pub encrypt : Outside → String → String → String
encrypt o iv text = if str_eq text "" then "" else o.seal iv text

abbrev pub decrypt : Outside → String → String
decrypt o text = if str_eq text "" then "" else o.unseal text

pub record Version : Type 0 where
  pub version : ℕ
  pub timestamp : ℕ
  pub value : String

pub record Access : Type 0 where
  pub tenant_id : String
  pub secret_name : String
  pub action : String
  pub user : String

-- the store in memory, secrets.json and versions.json of each tenant, and the lines of audit.log
pub record Vault : Type 0 where
  pub local_store : Dict String
  pub stores : Dict (Dict String)
  pub versions : Dict (Dict (List Version))
  pub audit : List Access

-- the arguments that the calls share
pub record Named : Type 0 where
  pub tenant_id : String
  pub name : String
  pub scope : String
  pub scope_id : Option String
  pub user : String

abbrev pub scope_of : Option String → String
scope_of none = "default"
scope_of (some id) = if str_eq id "" then "default" else id

unfoldable pub get_store_key : Named → String
get_store_key q =
    if str_eq q.scope "tenant"
    then q.name
    else str_append q.scope
        (str_append ":" (str_append (scope_of q.scope_id) (str_append ":" q.name)))

-- the key of the store in memory
unfoldable pub local_key : Named → String
local_key q = str_append q.tenant_id (str_append ":" (get_store_key q))

-- a file that does not exist counts as `{}`
abbrev pub file_of {ℓ} : {V : Type ℓ} → Option (Dict V) → Dict V
file_of none = []
file_of (some file) = file

-- and so does a missing list as `[]`
abbrev pub list_of {ℓ} : {V : Type ℓ} → Option (List V) → List V
list_of none = []
list_of (some l) = l

unfoldable pub validate_secret : Outside → String → String → Option String
validate_secret o name value =
    if str_eq value ""
    then some "Secret value must be a non-empty string"
    else if o.includes name "password" && ltb (o.size value) 8
    then some "Password secrets must be at least 8 characters long"
    else if o.includes name "key" && ltb (o.size value) 16
    then some "Key secrets must be at least 16 characters long"
    else none

-- the versions of a secret as versions.json has them
abbrev pub versions_of : String → String → Vault → List Version
versions_of tenant key v = list_of (lookup key (file_of (lookup tenant v.versions)))

unfoldable pub save_version : Outside → ℕ → String → String → String → String → Vault → Vault
save_version o now iv tenant key value v =
    let history = versions_of tenant key v in
    let entry : Version = record {
      version = length history + 1;
      timestamp = now;
      value = encrypt o iv value;
    } in
    record v {
      versions =
          put tenant (put key (history ++ (entry ∷ [])) (file_of (lookup tenant v.versions)))
            v.versions;
    }

abbrev pub shown : Outside → Version → Version
shown o x = record x { value = decrypt o x.value }

unfoldable pub get_versions : Outside → String → String → Vault → List Version
get_versions o tenant key v = map (shown o) (versions_of tenant key v)

abbrev pub match_of : Option Version → Result String String
match_of none = err "Version not found"
match_of (some x) = ok x.value

-- `rollback` of the version manager
unfoldable pub version_value : Outside → String → String → ℕ → Vault → Result String String
version_value o tenant key target v =
    match_of (find (λ x. x.version == target) (get_versions o tenant key v))

abbrev pub log_access : Named → String → Vault → Vault
log_access q action v = record v {
  audit =
      v.audit
      ++ (record { tenant_id = q.tenant_id; secret_name = q.name; action = action; user = q.user }
          ∷ []);
}

unfoldable pub store_secret : Outside → String → String → Named → Vault → Vault
store_secret o iv value q v =
    let sealed = encrypt o iv value in
    record v {
      local_store = put (local_key q) sealed v.local_store;
      stores =
          put q.tenant_id (put (get_store_key q) sealed (file_of (lookup q.tenant_id v.stores)))
            v.stores;
    }

abbrev pub saved :
    Outside → ℕ → String → String → String → Named → Option String → Vault → Vault × Option String
saved o now iv1 iv2 value q (some e) v = (v, some e)
saved o now iv1 iv2 value q none v = (
  log_access q "SECRET_WRITE"
      (save_version o now iv2 q.tenant_id (get_store_key q) value (store_secret o iv1 value q v)),
  none,
)

unfoldable pub save_secret :
    Outside → ℕ → String → String → String → Named → Vault → Vault × Option String
save_secret o now iv1 iv2 value q v = saved o now iv1 iv2 value q (validate_secret o q.name value) v

abbrev pub opened : Outside → Option String → Option String
opened o none = none
opened o (some text) = some (decrypt o text)

unfoldable pub get_secret : Outside → Named → Vault → Vault × Option String
get_secret o q v = (log_access q "SECRET_READ" v, opened o (lookup (local_key q) v.local_store))

-- `if (store[key])`
abbrev pub is_kept : Option String → Bool
is_kept none = false
is_kept (some text) = not (str_eq text "")

abbrev pub without : String → Dict String → Dict String
without key file = if is_kept (lookup key file) then remove key file else file

-- the file is written only where it exists
abbrev pub delete_stored :
    String → String → Option (Dict String) → Dict (Dict String) → Dict (Dict String)
delete_stored tenant key none stores = stores
delete_stored tenant key (some file) stores = put tenant (without key file) stores

unfoldable pub delete_secret : Named → Vault → Vault
delete_secret q v = log_access q "SECRET_DELETE" (record v {
  local_store = remove (local_key q) v.local_store;
  stores = delete_stored q.tenant_id (get_store_key q) (lookup q.tenant_id v.stores) v.stores;
})

-- after the save: the second line of the audit only where it did not throw
abbrev pub rolled : Named → Vault × Option String → Vault × Option String
rolled q (v, some e) = (v, some e)
rolled q (v, none) = (log_access q "SECRET_ROLLBACK" v, none)

abbrev pub rolled_to :
    Outside → ℕ → String → String → Named → Result String String → Vault → Vault × Option String
rolled_to o now iv1 iv2 q (err e) v = (v, some e)
rolled_to o now iv1 iv2 q (ok value) v = rolled q (save_secret o now iv1 iv2 value q v)

unfoldable pub rollback_secret :
    Outside → ℕ → String → String → ℕ → Named → Vault → Vault × Option String
rollback_secret o now iv1 iv2 target q v =
    rolled_to o now iv1 iv2 q (version_value o q.tenant_id (get_store_key q) target v) v

-- the secret is saved anew where it was found
abbrev pub rotated :
    Outside → ℕ → String → String → String → Named → Bool → Vault → Vault × Option String
rotated o now iv1 iv2 drawn q false v = (v, some "Secret not found")
rotated o now iv1 iv2 drawn q true v = save_secret o now iv1 iv2 (str_append "rotated_" drawn) q v

-- `SecretRotation.rotate`, whose calls name no user
unfoldable pub rotate :
    Outside → ℕ → String → String → String → Named → Vault → Vault × Option String
rotate o now iv1 iv2 drawn q v =
    let p : Named = record q { user = "system" } in
    let r = get_secret o p v in rotated o now iv1 iv2 drawn p (is_kept r.1) r.0
