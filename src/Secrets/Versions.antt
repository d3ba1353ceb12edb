-- ===== src/Secrets/Versions.antt =====
-- What a secret was can be had again, whatever happened since.
use sj_cloud.Prelude.{
  ℕ, ◌+◌, ◌≤◌, ◌≡◌, refl, subst, arith, String, List, [], ◌∷◌, ◌++◌, map, Option, some, Dict,
  lookup, put, lookup-put, lookup-put_self, str_eq, eq_iff, ◌==◌, length, length-append, find, All,
  All-append, Bool-cases, inl, inr,
}
use sj_cloud.Secrets.{
  Outside, encrypt, Version, Vault, Named, file_of, list_of, versions_of, save_version, shown,
  save_secret, get_secret, delete_secret, rollback_secret, rotate,
}

-- a call of the manager, with the clock and the initial vectors
pub data Call : Type 0 where
  saves : ℕ → String → String → String → Named → Call
  rotates : ℕ → String → String → String → Named → Call
  gets deletes : Named → Call
  rolls_back : ℕ → String → String → ℕ → Named → Call

module _ (o : Outside) where
  abbrev pub call : Call → Vault → Vault
  call (saves now iv1 iv2 value q) v = (save_secret o now iv1 iv2 value q v).0
  call (rotates now iv1 iv2 drawn q) v = (rotate o now iv1 iv2 drawn q v).0
  call (gets q) v = (get_secret o q v).0
  call (deletes q) v = delete_secret q v
  call (rolls_back now iv1 iv2 target q) v = (rollback_secret o now iv1 iv2 target q v).0

  unfoldable pub call_all : List Call → Vault → Vault
  call_all [] v = v
  call_all (c ∷ rest) v = call_all rest (call c v)

abbrev pub new_vault : Vault
new_vault = record { local_store = []; stores = []; versions = []; audit = [] }

-- the versions of every secret only grow at the end, by entries numbered in their order
pub data Grows : List Version → List Version → Type 0 where
  same : {l : List Version} → Grows l l
  more :
      {l m : List Version} (x : Version)
      → Grows l m
      → x.version ≡ length m + 1
      → Grows l (m ++ (x ∷ []))

abbrev pub Extends : Vault → Vault → Type 0
Extends v w = (tenant key : String) → Grows (versions_of tenant key v) (versions_of tenant key w)

pub Grows-trans : (l m n : List Version) → Grows l m → Grows m n → Grows l n
Grows-trans l m n g same = g
Grows-trans l m n g (more x h e) = more x (Grows-trans l _ _ g h) e

All-le :
    (l : List Version) (a b : ℕ) → All (λ x. x.version ≤ a) l → a ≤ b → All (λ x. x.version ≤ b) l
All-le [] a b h n = tt
All-le (x ∷ l) a b h n = (ground (arith, h.0, n), All-le l a b h.1 n)

pub Grows-All :
    (l m : List Version)
    → Grows l m
    → All (λ x. x.version ≤ length l) l
    → All (λ x. x.version ≤ length m) m
Grows-All l m same h = h
Grows-All l m (more {m = k} x g e) h =
    All-append (λ y. y.version ≤ length (k ++ (x ∷ []))) k (x ∷ [])
      (All-le k (length k) (length (k ++ (x ∷ []))) (Grows-All l k g h)
        (ground (arith, length-append k (x ∷ []))))
      (ground (arith, e, length-append k (x ∷ [])), tt)

-- what `version_value` looks for
abbrev pub sought : Outside → ℕ → List Version → Option Version
sought o target l = find (λ x. x.version == target) (map (shown o) l)

pub sought-last :
    (o : Outside) (l : List Version) (x : Version) (n : ℕ)
    → All (λ y. y.version ≤ n) l
    → x.version ≡ n + 1
    → sought o (n + 1) (l ++ (x ∷ [])) ≡ some (shown o x)
sought-last o [] x n h e = ground (arith, e)
sought-last o (y ∷ l) x n h e = ground (arith, h.0, sought-last o l x n h.1 e)

sought-more :
    (o : Outside) (target : ℕ) (l : List Version) (x y : Version)
    → sought o target l ≡ some y
    → sought o target (l ++ (x ∷ [])) ≡ some y
sought-more o target [] x y h = ground (arith, h)
sought-more o target (z ∷ l) x y h = elim (Bool-cases (z.version == target)) [
  | inl e ↦ ground (arith, e, h)
  | inr e ↦ ground (arith, e, h, sought-more o target l x y)
]

pub sought-Grows :
    (o : Outside) (target : ℕ) (l m : List Version) (y : Version)
    → Grows l m
    → sought o target l ≡ some y
    → sought o target m ≡ some y
sought-Grows o target l m y same h = h
sought-Grows o target l m y (more {m = k} x g e) h =
    sought-more o target k x y (sought-Grows o target l k y g h)

module _ (o : Outside) (now : ℕ) (iv tenant key value : String) (v : Vault) where
  abbrev pub entry : Version
  entry = record {
    version = length (versions_of tenant key v) + 1;
    timestamp = now;
    value = encrypt o iv value;
  }

  pub versions_of-save_version :
      versions_of tenant key (save_version o now iv tenant key value v)
      ≡ versions_of tenant key v ++ (entry ∷ [])
  unfolding save_version
  versions_of-save_version =
      rw
        (
          lookup-put_self tenant
              (put key (versions_of tenant key v ++ (entry ∷ []))
                (file_of (lookup tenant v.versions)))
              v.versions,
          lookup-put_self key (versions_of tenant key v ++ (entry ∷ []))
              (file_of (lookup tenant v.versions)),
        )
        refl

  abbrev file : Dict (List Version)
  file = file_of (lookup tenant v.versions)

  abbrev history : List Version
  history = versions_of tenant key v ++ (entry ∷ [])

  pub save_version-Extends : Extends v (save_version o now iv tenant key value v)
  unfolding save_version
  save_version-Extends t k = elim (Bool-cases (str_eq tenant t)) [
    | inr e ↦ rw (lookup-put tenant t (put key history file) v.versions, e) same
    | inl e ↦
        subst
          (λ u.
            Grows (versions_of u k v) (versions_of u k (save_version o now iv tenant key value v)))
          ((eq_iff tenant t).0 e)
          (rw (lookup-put_self tenant (put key history file) v.versions)
            (elim (Bool-cases (str_eq key k)) [
              | inr f ↦ rw (lookup-put key k history file, f) same
              | inl f ↦
                  subst
                    (λ j.
                      Grows (versions_of tenant j v) (list_of (lookup j (put key history file))))
                    ((eq_iff key k).0 f)
                    (rw (lookup-put_self key history file) (more entry same refl))
            ]))
  ]

pub new_vault-All :
    (tenant key : String)
    → All
        (λ x. x.version ≤ length (versions_of tenant key new_vault))
        (versions_of tenant key new_vault)
unfolding lookup
new_vault-All tenant key = tt
