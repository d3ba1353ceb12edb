-- ===== src/Configuration/Redacted.antt =====
-- What the history of configurations keeps.
use sj_cloud.Prelude.{
  ◌+◌, ◌-◌, ◌≤◌, ◌≡◌, refl, subst, arith, String, Bool, true, not, ◌||◌, List, [], ◌∷◌, ◌++◌,
  Option, none, some, lookup, str_eq, eq_iff, ltb, length, length-append, Result, ok, err, All,
  All-append, Bool-cases, inl, inr,
}
use sj_cloud.Configuration.{
  Config, redact, Change, is_same, changes, Entry, shift, bounded, changes_from, record_config,
  Manager, redacted_cache, load, reload,
}

-- a call of the manager
pub data Call : Type 0 where
  loads reloads : Result String Config → Call

module _ (is_secret : String → Bool) where
  abbrev pub call : Call → Manager → Manager
  call (loads given) m = (load is_secret given m).0
  call (reloads given) m = (reload is_secret given m).0

  unfoldable pub call_all : List Call → Manager → Manager
  call_all [] m = m
  call_all (c ∷ rest) m = call_all rest (call c m)

-- a value under a secret key is the mark
abbrev pub is_hidden : (String → Bool) → String → String → Bool
is_hidden is_secret key value = not (is_secret key) || str_eq value "\"[REDACTED]\""

-- and so is a value that there was before
abbrev pub was_hidden : (String → Bool) → String → Option String → Bool
was_hidden is_secret key none = true
was_hidden is_secret key (some value) = is_hidden is_secret key value

abbrev pub IsKept : (String → Bool) → Change → Type 0
IsKept is_secret c =
    (is_hidden is_secret c.key c.to ≡ true) × (was_hidden is_secret c.key c.from ≡ true)

abbrev pub IsHidden : (String → Bool) → Entry → Type 0
IsHidden is_secret e =
    All (λ p. is_hidden is_secret p.0 p.1 ≡ true) e.config × All (IsKept is_secret) e.changed

-- no entry has a secret, and there are at most 50
abbrev pub IsSafe : (String → Bool) → Manager → Type 0
IsSafe is_secret m = All (IsHidden is_secret) m.history.records × (length m.history.records ≤ 50)

module _ (is_secret : String → Bool) where
  redact-is_hidden :
      (c : Config) → All (λ p. is_hidden is_secret p.0 p.1 ≡ true) (redact is_secret c)
  unfolding redact
  redact-is_hidden [] = tt
  redact-is_hidden ((key, value) ∷ rest) = elim (Bool-cases (is_secret key)) [
    | inl e ↦ (rw e refl, redact-is_hidden rest)
    | inr e ↦ (rw e refl, redact-is_hidden rest)
  ]

  lookup-was_hidden :
      (key : String) (c : Config)
      → All (λ p. is_hidden is_secret p.0 p.1 ≡ true) c
      → was_hidden is_secret key (lookup key c) ≡ true
  unfolding lookup
  lookup-was_hidden key [] h = refl
  lookup-was_hidden key ((other, value) ∷ rest) h = elim (Bool-cases (str_eq other key)) [
    | inl e ↦ rw e (subst (λ k. is_hidden is_secret k value ≡ true) ((eq_iff other key).0 e) h.0)
    | inr e ↦ rw e (lookup-was_hidden key rest h.1)
  ]

  changes-IsKept :
      (previous c : Config)
      → All (λ p. is_hidden is_secret p.0 p.1 ≡ true) previous
      → All (λ p. is_hidden is_secret p.0 p.1 ≡ true) c
      → All (IsKept is_secret) (changes previous c)
  unfolding changes
  changes-IsKept previous [] b h = tt
  changes-IsKept previous ((key, value) ∷ rest) b h =
      elim (Bool-cases (is_same (lookup key previous) value)) [
        | inl e ↦ rw e (changes-IsKept previous rest b h.1)
        | inr e ↦ rw e ((h.0, lookup-was_hidden key previous b), changes-IsKept previous rest b h.1)
      ]

  redacted_cache-IsKept :
      (cache : Option Config) (c : Config)
      → All (λ p. is_hidden is_secret p.0 p.1 ≡ true) c
      → All (IsKept is_secret) (changes_from (redacted_cache is_secret cache) c)
  redacted_cache-IsKept none c h = tt
  redacted_cache-IsKept (some p) c h = changes-IsKept (redact is_secret p) c (redact-is_hidden p) h

  shift-All : (l : List Entry) → All (IsHidden is_secret) l → All (IsHidden is_secret) (shift l)
  shift-All [] h = tt
  shift-All (e ∷ l) h = h.1

  length-shift : (l : List Entry) → length (shift l) ≡ length l - 1
  length-shift [] = omega arith
  length-shift (e ∷ l) = omega arith

  bounded-IsSafe :
      (l : List Entry)
      → All (IsHidden is_secret) l
      → length l ≤ 51
      → All (IsHidden is_secret) (bounded l) × (length (bounded l) ≤ 50)
  bounded-IsSafe l h n = elim (Bool-cases (ltb 50 (length l))) [
    | inl e ↦ rw e (shift-All l h, ground (arith, length-shift l, n))
    | inr e ↦ rw e (h, ground (arith, e))
  ]

  load-IsSafe :
      (given : Result String Config) (m : Manager)
      → IsSafe is_secret m
      → IsSafe is_secret (load is_secret given m).0
  unfolding load record_config
  load-IsSafe (err e) m h = h
  load-IsSafe (ok raw) m h =
      let c = redact is_secret raw in
      let r = redact-is_hidden raw in
      let e : Entry = record {
        version = m.history.version;
        changed = changes_from (redacted_cache is_secret m.cache) c;
        config = c;
      } in
      bounded-IsSafe (m.history.records ++ (e ∷ []))
        (All-append (IsHidden is_secret) m.history.records (e ∷ []) h.0
          ((r, redacted_cache-IsKept m.cache c r), tt))
        (ground (arith, length-append m.history.records (e ∷ []), h.1))

  call-IsSafe :
      (c : Call) (m : Manager) → IsSafe is_secret m → IsSafe is_secret (call is_secret c m)
  unfolding reload
  call-IsSafe (loads given) m h = load-IsSafe given m h
  call-IsSafe (reloads given) m h =
      load-IsSafe given (record m { reload_count = m.reload_count + 1 }) h

  -- Where no entry of the history has under a secret key another value than the mark, neither in its
  -- configuration nor as the old or the new value of a change, and there are at most 50 entries, this
  -- stays so under any sequence of loads and reloads, of configurations that are valid or not.
  pub call_all-IsSafe :
      (calls : List Call) (m : Manager)
      → IsSafe is_secret m
      → IsSafe is_secret (call_all is_secret calls m)
  unfolding call_all
  call_all-IsSafe [] m h = h
  call_all-IsSafe (c ∷ rest) m h = call_all-IsSafe rest (call is_secret c m) (call-IsSafe c m h)
