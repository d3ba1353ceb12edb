-- ===== src/Mesh/Snapshots/Examples.antt =====
-- The theorems of the snapshots at concrete inputs.
use sj_cloud.Prelude.{ℕ, ◌≡◌, refl, String, [], ◌∷◌, none, some, ok}
use sj_cloud.Mesh.Snapshots.{Snapshot, Entry, Store, commit, rollback, rollback_to, add_entry}
use sj_cloud.Mesh.Snapshots.History.{rollback-commit}

abbrev digest : Snapshot ℕ → String
digest x = "digest"

abbrev snapshot : ℕ → ℕ → Snapshot ℕ
snapshot services number = record {
  services = services;
  compiled_at = "today";
  version = "1.0.0";
  build_number = number;
  sha256 = "digest";
}

abbrev entry : ℕ → Entry
entry number = record {
  build_number = number;
  version = "1.0.0";
  compiled_at = "today";
  sha256 = "digest";
}

abbrev empty : Store ℕ
empty = record { output = none; index = []; backups = [] }

abbrev one : Store ℕ
one = record {
  output = some (snapshot 10 1);
  index = entry 1 ∷ [];
  backups = (1, snapshot 10 1) ∷ [];
}

committed_one : commit digest 10 "1.0.0" "today" empty ≡ ok (snapshot 10 1, one)
unfolding commit add_entry
committed_one = refl

rollback-commit_example : rollback 1 one ≡ ok (snapshot 10 1, one)
rollback-commit_example =
    rollback-commit digest 10 "1.0.0" "today" empty one (snapshot 10 1) committed_one

abbrev two : Store ℕ
two = record {
  output = some (snapshot 20 2);
  index = entry 1 ∷ entry 2 ∷ [];
  backups = (1, snapshot 10 1) ∷ (2, snapshot 20 2) ∷ [];
}

abbrev back : Store ℕ
back = record two { output = some (snapshot 10 1) }

abbrev again : Store ℕ
again = record {
  output = some (snapshot 30 2);
  index = entry 1 ∷ entry 2 ∷ [];
  backups = (1, snapshot 10 1) ∷ (2, snapshot 30 2) ∷ [];
}

rolled_back : rollback 1 two ≡ ok (snapshot 10 1, back)
unfolding rollback rollback_to
rolled_back = refl

committed_again : commit digest 30 "1.0.0" "today" back ≡ ok (snapshot 30 2, again)
unfolding commit add_entry
committed_again = refl
