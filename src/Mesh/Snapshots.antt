-- ===== src/Mesh/Snapshots.antt =====
-- platform/service-mesh/cache: snapshot-manager.js, snapshot-history.js, snapshot-loader.js,
-- snapshot-validator.js, snapshot-version.js and snapshot-metadata.js. The files are a state in
-- memory: the snapshot at the output path, the index, and the backups by the number that names
-- their files. The services are of any type, and the checksum is an argument.
pub mod History
mod Examples
use sj_cloud.Prelude.{
  ℕ, ◌+◌, String, Bool, true, false, List, [], ◌∷◌, ◌++◌, Option, none, some, or_else, ◌==◌, str_eq,
  find, if◌then◌else◌, Result, ok, err, ◌>>=◌,
}

-- the files that a number names
abbrev pub lookup_at {ℓ} : {V : Type ℓ} → ℕ → List (ℕ × V) → Option V
lookup_at n [] = none
lookup_at n ((m, v) ∷ rest) = let other = lookup_at n rest in if m == n then some v else other

abbrev pub put_at {ℓ} : {V : Type ℓ} → ℕ → V → List (ℕ × V) → List (ℕ × V)
put_at n v [] = (n, v) ∷ []
put_at n v ((m, w) ∷ rest) =
    let other = put_at n v rest in if m == n then (m, v) ∷ rest else (m, w) ∷ other

pub record Snapshot {ℓ} (S : Type ℓ) : Type ℓ where
  pub services : S
  pub compiled_at : String
  pub version : String
  pub build_number : ℕ
  pub sha256 : String

-- an entry of the index; the name of the file is that of the number
pub record Entry : Type 0 where
  pub build_number : ℕ
  pub version : String
  pub compiled_at : String
  pub sha256 : String

pub record Store {ℓ} (S : Type ℓ) : Type ℓ where
  pub output : Option (Snapshot S)
  pub index : List Entry
  pub backups : List (ℕ × Snapshot S)

pub data SnapshotError : Type 0 where
  no_compiled_at no_sha256 : SnapshotError
  not_in_history no_backup : ℕ → SnapshotError

abbrev pub increment_build : ℕ → ℕ
increment_build n = n + 1

abbrev pub text_or : String → String → String
text_or t other = if str_eq t "" then other else t

-- the entry in the place of the one with its number, or at the end
abbrev pub indexed : Entry → List Entry → List Entry
indexed e [] = e ∷ []
indexed e (f ∷ rest) =
    let other = indexed e rest in if f.build_number == e.build_number then e ∷ rest else f ∷ other

abbrev pub has_number : ℕ → Entry → Bool
has_number n e = e.build_number == n

module _ {ℓ} {S : Type ℓ} where
  -- `validate` of a snapshot with services
  abbrev pub validate : Snapshot S → Result SnapshotError (Unit {0})
  validate x =
      if str_eq x.compiled_at ""
      then err no_compiled_at
      else if str_eq x.sha256 ""
      then err no_sha256
      else ok tt

  -- the build number of the snapshot that is there; one that does not load counts as none
  abbrev pub loaded_number : Snapshot S → Result SnapshotError (Unit {0}) → ℕ
  loaded_number x (ok u) = x.build_number
  loaded_number x (err e) = 0

  abbrev pub previous_number : Option (Snapshot S) → ℕ
  previous_number none = 0
  previous_number (some x) = loaded_number x (validate x)

  -- `generate`
  abbrev pub generate : (Snapshot S → String) → S → String → ℕ → String → Snapshot S
  generate digest services version number now =
      let raw : Snapshot S = record {
        services = services;
        compiled_at = now;
        version = version;
        build_number = number;
        sha256 = "";
      } in
      record raw { sha256 = digest raw }

  abbrev pub entry_of : Snapshot S → Entry
  entry_of x = record {
    build_number = or_else (some x.build_number) 1;
    version = text_or x.version "1.0.0";
    compiled_at = x.compiled_at;
    sha256 = x.sha256;
  }

  -- `addEntry`
  unfoldable pub add_entry : Snapshot S → Store S → Store S
  add_entry x s = record s {
    index = indexed (entry_of x) s.index;
    backups = put_at (or_else (some x.build_number) 1) x s.backups;
  }

  abbrev pub committed : Snapshot S → Store S → Snapshot S × Store S
  committed x s = (x, add_entry x (record s { output = some x }))

  -- `commit`
  unfoldable pub commit :
      (Snapshot S → String)
      → S
      → String
      → String
      → Store S
      → Result SnapshotError (Snapshot S × Store S)
  commit digest services version now s =
      let x = generate digest services version (increment_build (previous_number s.output)) now in
      validate x >>= λ u. ok (committed x s)

  abbrev pub backup_found : ℕ → Option (Snapshot S) → Result SnapshotError (Snapshot S)
  backup_found n none = err (no_backup n)
  backup_found n (some x) = ok x

  abbrev pub entry_found : Option Entry → ℕ → Store S → Result SnapshotError (Snapshot S)
  entry_found none n s = err (not_in_history n)
  entry_found (some e) n s = backup_found n (lookup_at e.build_number s.backups)

  -- `rollbackTo`
  unfoldable pub rollback_to : ℕ → Store S → Result SnapshotError (Snapshot S)
  rollback_to n s = entry_found (find (has_number n) s.index) n s

  -- `rollback`
  unfoldable pub rollback : ℕ → Store S → Result SnapshotError (Snapshot S × Store S)
  rollback n s = rollback_to n s >>= λ x. validate x >>= λ u. ok (x, record s { output = some x })
