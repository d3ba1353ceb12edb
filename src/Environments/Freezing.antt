-- ===== src/Environments/Freezing.antt =====
-- The freezes as a set of names: what the manager promises, a test on names, and that its list
-- keeps it.
use sj_cloud.Prelude.{
  ◌≡◌, refl, arith, String, Bool, false, not, ◌&&◌, ◌||◌, List, [], ◌∷◌, keep, some_of, str_eq,
  eq_iff, Bool-cases, inl, inr, ap, ◌∙◌,
}
use sj_cloud.Environments.{Freezes, is_frozen, freeze, unfreeze}

pub data Change : Type 0 where
  freezes unfreezes : String → Change

module _ (lower : String → String) where
  unfoldable pub change_all : List Change → Freezes → Freezes
  change_all [] s = s
  change_all (freezes name ∷ rest) s = change_all rest (freeze lower name s)
  change_all (unfreezes name ∷ rest) s = change_all rest (unfreeze lower name s)

  -- the specification: a set of names is a test
  unfoldable pub replay : List Change → (String → Bool) → String → Bool
  replay [] p = p
  replay (freezes name ∷ rest) p = replay rest (λ k. str_eq k (lower name) || p k)
  replay (unfreezes name ∷ rest) p = replay rest (λ k. not (str_eq k (lower name)) && p k)

-- the test that a list stands for
abbrev pub holds : Freezes → String → Bool
holds s k = some_of (λ x. str_eq k x) s

holds-keep :
    (key k : String) (s : Freezes)
    → holds (keep (λ x. not (str_eq key x)) s) k ≡ (not (str_eq k key) && holds s k)
holds-keep key k [] = ground arith
holds-keep key k (x ∷ s) =
    ground (arith, holds-keep key k s, eq_iff key x, eq_iff k x, eq_iff k key)

holds-freeze :
    (lower : String → String) (name k : String) (s : Freezes)
    → holds (freeze lower name s) k ≡ (str_eq k (lower name) || holds s k)
unfolding freeze is_frozen
holds-freeze lower name k s = elim (Bool-cases (holds s (lower name))) [
  | inr e ↦ rw e refl
  | inl e ↦ rw e (elim (Bool-cases (str_eq k (lower name))) [
    | inr f ↦ rw f refl
    | inl f ↦ rw f (rw ((eq_iff k (lower name)).0 f) e)
  ])
]

refines :
    (lower : String → String) (changes : List Change) (s : Freezes) (p : String → Bool) (k : String)
    → ((j : String) → holds s j ≡ p j)
    → holds (change_all lower changes s) k ≡ replay lower changes p k
unfolding change_all replay unfreeze
refines lower [] s p k h = h k
refines lower (freezes name ∷ rest) s p k h =
    refines lower rest (freeze lower name s) (λ j. str_eq j (lower name) || p j) k
      (λ j. holds-freeze lower name j s ∙ ap (λ b. str_eq j (lower name) || b) (h j))
refines lower (unfreezes name ∷ rest) s p k h =
    refines lower rest (unfreeze lower name s) (λ j. not (str_eq j (lower name)) && p j) k
      (λ j. holds-keep (lower name) j s ∙ ap (λ b. not (str_eq j (lower name)) && b) (h j))

-- After any sequence of freezes and unfreezes from no freeze, an environment is frozen exactly if
-- the set of names that the sequence builds has its name in small letters.
pub change_all-replay :
    (lower : String → String) (changes : List Change) (name : String)
    → is_frozen lower name (change_all lower changes [])
      ≡ replay lower changes (λ k. false) (lower name)
unfolding is_frozen
change_all-replay lower changes name =
    refines lower changes [] (λ k. false) (lower name) (λ j. refl)
