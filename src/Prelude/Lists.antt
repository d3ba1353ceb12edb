-- ===== src/Prelude/Lists.antt =====
-- Lists measured by native numbers, Boolean filters and predicates over lists.
use Prim.Native.Nat.{ℕ, zero, suc, ◌+◌, ◌≤◌}
use mathlib.Core.Path.{◌≡◌, refl, ap}
use mathlib.Core.Logic.{◌⊎◌, inl, inr}
use mathlib.Core.Bool.{Bool, false, ◌||◌}
use mathlib.Core.List.{List, [], ◌∷◌, ◌++◌, map}
use mathlib.Core.Option.{Option, none, some}
use native.Mathlib.Omega.{arith}
use sj_cloud.Prelude.Tests.{if◌then◌else◌}

module _ {ℓ} {A : Type ℓ} where
  abbrev pub length : List A → ℕ
  length [] = 0
  length (x ∷ xs) = suc (length xs)

  abbrev pub get_elem? : List A → ℕ → Option A
  get_elem? [] i = none
  get_elem? (x ∷ xs) zero = some x
  get_elem? (x ∷ xs) (suc i) = get_elem? xs i

  abbrev pub replicate : ℕ → A → List A
  replicate zero a = []
  replicate (suc n) a = a ∷ replicate n a

  -- `xs.filter(p)`; the library's takes a decision procedure.
  abbrev pub keep : (A → Bool) → List A → List A
  keep p [] = []
  keep p (x ∷ xs) = let rest = keep p xs in if p x then x ∷ rest else rest

  -- `xs.find(p)`
  abbrev pub find : (A → Bool) → List A → Option A
  find p [] = none
  find p (x ∷ xs) = let rest = find p xs in if p x then some x else rest

  -- `xs.some(p)`, and `xs.includes(a)` at an equality test
  abbrev pub some_of : (A → Bool) → List A → Bool
  some_of p [] = false
  some_of p (x ∷ xs) = p x || some_of p xs

  abbrev pub count : (A → Bool) → List A → ℕ
  count p [] = 0
  count p (x ∷ xs) = let rest = count p xs in if p x then suc rest else rest

  abbrev pub All {κ} : (A → Type κ) → List A → Type κ
  All P [] = Unit
  All P (x ∷ xs) = P x × All P xs

  -- `xs[i] = a`, where there is an `xs[i]`
  abbrev pub set_at : ℕ → A → List A → List A
  set_at i a [] = []
  set_at zero a (x ∷ xs) = a ∷ xs
  set_at (suc i) a (x ∷ xs) = x ∷ set_at i a xs

  pub count-set_at :
      (p : A → Bool) (i : ℕ) (old new : A) (xs : List A)
      → get_elem? xs i ≡ some old
      → count p (set_at i new xs) + (if p old then 1 else 0) ≡ count p xs + (if p new then 1 else 0)
  count-set_at p i old new [] h = ground arith
  count-set_at p zero old new (x ∷ xs) h = ground (arith, h)
  count-set_at p (suc i) old new (x ∷ xs) h = ground (arith, count-set_at p i old new xs h)

  pub set_at_kept : (i : ℕ) (a : A) (xs : List A) → get_elem? xs i ≡ some a → set_at i a xs ≡ xs
  set_at_kept i a [] h = refl
  set_at_kept zero a (x ∷ xs) h = ground (arith, h)
  set_at_kept (suc i) a (x ∷ xs) h = ap (λ ys. x ∷ ys) (set_at_kept i a xs h)

  -- another place keeps its element
  pub get_elem?-set_at :
      (i j : ℕ) (a b : A) (xs : List A)
      → get_elem? xs i ≡ some a
      → (i ≡ j) ⊎ (get_elem? (set_at j b xs) i ≡ some a)
  get_elem?-set_at i j a b [] h = inr h
  get_elem?-set_at zero zero a b (x ∷ xs) h = inl refl
  get_elem?-set_at zero (suc j) a b (x ∷ xs) h = inr h
  get_elem?-set_at (suc i) zero a b (x ∷ xs) h = inr h
  get_elem?-set_at (suc i) (suc j) a b (x ∷ xs) h = elim (get_elem?-set_at i j a b xs h) [
    | inl e ↦ inl (ap suc e)
    | inr k ↦ inr k
  ]

  pub get_elem?-append :
      (i : ℕ) (a : A) (xs ys : List A) → get_elem? xs i ≡ some a → get_elem? (xs ++ ys) i ≡ some a
  get_elem?-append i a [] ys h = ground arith
  get_elem?-append zero a (x ∷ xs) ys h = h
  get_elem?-append (suc i) a (x ∷ xs) ys h = get_elem?-append i a xs ys h

  pub length-append : (xs ys : List A) → length (xs ++ ys) ≡ length xs + length ys
  length-append [] ys = omega arith
  length-append (x ∷ xs) ys = omega (arith, length-append xs ys)

  pub count-append : (p : A → Bool) (xs ys : List A) → count p (xs ++ ys) ≡ count p xs + count p ys
  count-append p [] ys = omega arith
  count-append p (x ∷ xs) ys = ground (arith, count-append p xs ys)

  pub length-keep-le : (p : A → Bool) (xs : List A) → length (keep p xs) ≤ length xs
  length-keep-le p [] = omega arith
  length-keep-le p (x ∷ xs) = ground (arith, length-keep-le p xs)

module _ {ℓ} {A : Type ℓ} where
  pub All-append {κ} : (P : A → Type κ) (xs ys : List A) → All P xs → All P ys → All P (xs ++ ys)
  All-append P [] ys hx hy = hy
  All-append P (x ∷ xs) ys hx hy = (hx.0, All-append P xs ys hx.1 hy)

  pub All-split {κ} : (P : A → Type κ) (xs ys : List A) → All P (xs ++ ys) → All P xs × All P ys
  All-split P [] ys h = (tt, h)
  All-split P (x ∷ xs) ys h = let rest = All-split P xs ys h.1 in ((h.0, rest.0), rest.1)

module _ {ℓ κ} {A : Type ℓ} {B : Type κ} where
  pub length-map : (f : A → B) (xs : List A) → length (map f xs) ≡ length xs
  length-map f [] = refl
  length-map f (x ∷ xs) = ap suc (length-map f xs)
