-- ===== src/Mesh/Snapshots/History.antt =====
-- What the history of snapshots gives back, and what a commit after a rollback writes over.
use sj_cloud.Prelude.{
  ℕ, ◌+◌, ◌≡◌, refl, arith, String, List, [], ◌∷◌, some, or_else, find, Result, ok, err,
  Result-cases, inl, inr, ap, sym, ◌∙◌, subst,
}
use sj_cloud.Mesh.Snapshots.{
  lookup_at, put_at, Snapshot, Entry, Store, SnapshotError, validate, previous_number,
  increment_build, generate, entry_of, indexed, add_entry, committed, commit, has_number,
  rollback_to, rollback,
}

lookup_at-put_at_self {ℓ} :
    {V : Type ℓ} (n : ℕ) (v : V) (m : List (ℕ × V)) → lookup_at n (put_at n v m) ≡ some v
lookup_at-put_at_self n v [] = ground arith
lookup_at-put_at_self n v ((j, w) ∷ m) = ground (arith, lookup_at-put_at_self n v m)

find-indexed :
    (e : Entry) (l : List Entry) → find (has_number e.build_number) (indexed e l) ≡ some e
find-indexed e [] = ground arith
find-indexed e (f ∷ l) = ground (arith, find-indexed e l)

module _ {ℓ} {S : Type ℓ} where
  ok-snapshot :
      (a b : Snapshot S) (s t : Store S)
      → ◌≡◌ {A = Result SnapshotError (Snapshot S × Store S)} (ok (a, s)) (ok (b, t))
      → (a ≡ b) × (s ≡ t)
  ok-snapshot a b s t h =
      (ap (λ x. elim x [ ok p ↦ p.0 | err e ↦ a ]) h, ap (λ x. elim x [ ok p ↦ p.1 | err e ↦ s ]) h)

  -- what a commit that does not throw writes
  commit-ok :
      (digest : Snapshot S → String) (services : S) (version now : String) (s t : Store S)
      → (x : Snapshot S) → commit digest services version now s ≡ ok (x, t)
      → (validate x ≡ ok tt)
        × (x.build_number ≡ previous_number s.output + 1)
        × (t ≡ add_entry x (record s { output = some x }))
  unfolding commit
  commit-ok digest services version now s t x h =
      let y = generate digest services version (increment_build (previous_number s.output)) now in
      elim (Result-cases (validate y)) [
        | inr (u, e) ↦ ground (arith, rw e at h)
        | inl (u, e) ↦
            let k = ok-snapshot y x (committed y s).1 t (rw e at h) in
            (
              sym (ap (λ z. validate z) k.0) ∙ e,
              ap (λ z. z.build_number) (sym k.0),
              sym k.1 ∙ ap (λ z. (committed z s).1) k.0,
            )
      ]

  rollback-ok :
      (n : ℕ) (s t : Store S) (x : Snapshot S)
      → rollback n s ≡ ok (x, t)
      → (t.output ≡ some x) × (validate x ≡ ok tt)
  unfolding rollback
  rollback-ok n s t x h = elim (Result-cases (rollback_to n s)) [
    | inr (e, k) ↦ ground (arith, rw k at h)
    | inl (y, k) ↦ elim (Result-cases (validate y)) [
      | inr (e, v) ↦ ground (arith, rw (k, v) at h)
      | inl (e, v) ↦
          let q = ok-snapshot y x (record s { output = some y }) t (rw (k, v) at h) in
          (ap (λ z. z.output) (sym q.1) ∙ ap (λ z. some z) q.0, sym (ap (λ z. validate z) q.0) ∙ v)
    ]
  ]

  -- A snapshot that is committed is given back by a rollback to its number, which makes it the
  -- output again and leaves the history as it is.
  pub rollback-commit :
      (digest : Snapshot S → String) (services : S) (version now : String) (s t : Store S)
      → (x : Snapshot S) → commit digest services version now s ≡ ok (x, t)
      → rollback x.build_number t ≡ ok (x, t)
  unfolding rollback rollback_to add_entry
  rollback-commit digest services version now s t x h =
      let k = commit-ok digest services version now s t x h in
      let n : or_else (some x.build_number) 1 ≡ x.build_number = ground (arith, k.1) in
      let f =
        subst (λ m. find (has_number m) (indexed (entry_of x) s.index) ≡ some (entry_of x)) n
          (find-indexed (entry_of x) s.index) in
      let b = lookup_at-put_at_self (or_else (some x.build_number) 1) x s.backups in
      rw (k.2, f, b, k.0) refl

  -- A commit after a rollback takes the number after that of the snapshot that was rolled back to,
  -- and writes over the backup and the entry with this number, whatever was committed under it.
  pub commit_overwrites :
      (digest : Snapshot S → String) (services : S) (version now : String) (n : ℕ)
      → (s t u : Store S) (x y : Snapshot S) → rollback n s ≡ ok (x, t)
      → commit digest services version now t ≡ ok (y, u)
      → (y.build_number ≡ x.build_number + 1)
        × (lookup_at (x.build_number + 1) u.backups ≡ some y)
        × (find (has_number (x.build_number + 1)) u.index ≡ some (entry_of y))
  unfolding add_entry
  commit_overwrites digest services version now n s t u x y h c =
      let k = commit-ok digest services version now t u y c in
      let r = rollback-ok n s t x h in
      let p : previous_number t.output ≡ x.build_number = rw (r.0, r.1) refl in
      let q = k.1 ∙ ap (λ m. m + 1) p in
      let m : or_else (some y.build_number) 1 ≡ x.build_number + 1 = ground (arith, q) in
      (
        q,
        rw k.2 (
            subst (λ j. lookup_at j (put_at (or_else (some y.build_number) 1) y t.backups) ≡ some y)
              m (lookup_at-put_at_self (or_else (some y.build_number) 1) y t.backups)),
        rw k.2 (
            subst (λ j. find (has_number j) (indexed (entry_of y) t.index) ≡ some (entry_of y)) m
              (find-indexed (entry_of y) t.index)),
      )
