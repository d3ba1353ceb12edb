-- ===== src/Prelude/Dictionaries.antt =====
-- JavaScript objects and Maps with text keys: an association list in the order of insertion.
-- `put` writes over the entry of its key where there is one, and appends otherwise.
use Prim.Native.Nat.{ℕ, ◌+◌}
use Prim.Native.String.{String}
use mathlib.Core.Path.{◌≡◌, refl}
use mathlib.Core.Bool.{Bool, true, false}
use mathlib.Core.Logic.{◌≢◌}
use mathlib.Core.List.{List, [], ◌∷◌}
use mathlib.Core.Option.{Option, none, some}
use native.Mathlib.Omega.{arith}
use text.Mathlib.Text.{◌==◌ as str_eq}
use text.Mathlib.TextEquality.{eq_iff}
use sj_cloud.Prelude.Tests.{if◌then◌else◌, or_else}

abbrev pub Dict {ℓ} : Type ℓ → Type ℓ
Dict V = List (String × V)

module _ {ℓ} {V : Type ℓ} where
  unfoldable pub lookup : String → Dict V → Option V
  lookup k [] = none
  lookup k ((j, v) ∷ m) = if str_eq j k then some v else lookup k m

  unfoldable pub put : String → V → Dict V → Dict V
  put k v [] = (k, v) ∷ []
  put k v ((j, w) ∷ m) = if str_eq j k then (j, v) ∷ m else (j, w) ∷ put k v m

  unfoldable pub remove : String → Dict V → Dict V
  remove k [] = []
  remove k ((j, v) ∷ m) = let rest = remove k m in if str_eq j k then rest else (j, v) ∷ rest

  pub lookup-put :
      (k j : String) (v : V) (m : Dict V)
      → lookup j (put k v m) ≡ (if str_eq k j then some v else lookup j m)
  unfolding lookup put
  lookup-put k j v [] = refl
  lookup-put k j v ((i, w) ∷ m) =
      ground (arith, eq_iff k j, eq_iff i k, eq_iff i j, lookup-put k j v m)

  pub lookup-remove :
      (k j : String) (m : Dict V)
      → lookup j (remove k m) ≡ (if str_eq k j then none else lookup j m)
  unfolding lookup remove
  lookup-remove k j [] = ground arith
  lookup-remove k j ((i, w) ∷ m) =
      ground (arith, eq_iff k j, eq_iff i k, eq_iff i j, lookup-remove k j m)

module _ {ℓ} {V : Type ℓ} where
  -- the number of entries whose value passes a test
  abbrev pub population : (V → Bool) → Dict V → ℕ
  population p [] = 0
  population p ((k, v) ∷ m) = let rest = population p m in if p v then rest + 1 else rest

  pub population-put :
      (p : V → Bool) (k : String) (old new : V) (m : Dict V)
      → lookup k m ≡ some old
      → population p (put k new m) + (if p old then 1 else 0)
        ≡ population p m + (if p new then 1 else 0)
  unfolding lookup put
  population-put p k old new [] h = ground arith
  population-put p k old new ((j, v) ∷ m) h = ground (arith, population-put p k old new m)

  pub population-put_new :
      (p : V → Bool) (k : String) (new : V) (m : Dict V)
      → lookup k m ≡ none
      → population p (put k new m) ≡ population p m + (if p new then 1 else 0)
  unfolding lookup put
  population-put_new p k new [] h = ground arith
  population-put_new p k new ((j, v) ∷ m) h = ground (arith, population-put_new p k new m)

  pub put-kept : (k : String) (v : V) (m : Dict V) → lookup k m ≡ some v → put k v m ≡ m
  unfolding lookup put
  put-kept k v [] h = ground arith
  put-kept k v ((j, w) ∷ m) h = ground (arith, put-kept k v m)

pub str_eq_self : (k : String) → str_eq k k ≡ true
str_eq_self k = (eq_iff k k).1 refl

-- Texts that the test tells apart.
pub ne_of_test : (a b : String) → str_eq a b ≡ false → a ≢ b
ne_of_test a b h e = cc ((eq_iff a b).1 e)

module _ {ℓ} {V : Type ℓ} where
  pub lookup-put_self : (k : String) (v : V) (m : Dict V) → lookup k (put k v m) ≡ some v
  lookup-put_self k v m = simp (lookup-put, str_eq_self)

-- `m[k] || 0`
abbrev pub tally : String → Dict ℕ → ℕ
tally k m = or_else (lookup k m) 0

-- `m[k] = (m[k] || 0) + 1`
unfoldable pub bump : String → Dict ℕ → Dict ℕ
bump k m = put k (tally k m + 1) m

pub tally-bump :
    (k j : String) (m : Dict ℕ)
    → tally j (bump k m) ≡ (if str_eq k j then tally k m + 1 else tally j m)
unfolding bump
tally-bump k j m = ground (arith, lookup-put k j (tally k m + 1) m)

pub tally-bump_self : (k : String) (m : Dict ℕ) → tally k (bump k m) ≡ tally k m + 1
tally-bump_self k m = simp (tally-bump, str_eq_self)
