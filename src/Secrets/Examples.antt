-- ===== src/Secrets/Examples.antt =====
-- The theorems of the secrets at concrete inputs.
use sj_cloud.Prelude.{
  ◌≡◌, refl, ap, ◌∙◌, arith, String, false, List, [], ◌∷◌, none, some, length, ◌+◌, str_eq, eq_iff,
  Bool-cases, inl, inr,
}
use Prim.Native.String.{◌++◌ as str_append, len, slice}
use text.Mathlib.TextPositions.{len-append, slice-append_right}
use sj_cloud.Secrets.{
  Outside, Named, validate_secret, Vault, get_versions, get_store_key, save_secret, rollback_secret,
  get_secret,
}
use sj_cloud.Secrets.Versions.{Call, saves, rotates, deletes, rolls_back, call_all, new_vault}
use sj_cloud.Secrets.Restored.{rollback_secret-save_secret}

-- a cipher that puts a letter in front
abbrev outside : Outside
outside = record {
  seal = λ iv text. str_append "x" text;
  unseal = λ text. slice text 1 (len text);
  includes = λ name part. str_eq name part;
  size = len;
}

unseal-seal : (iv text : String) → outside.unseal (outside.seal iv text) ≡ text
unseal-seal iv text =
    ap (λ n. slice (str_append "x" text) 1 n) (len-append "x" text) ∙ slice-append_right "x" text

seal_nonempty : (iv text : String) → str_eq (outside.seal iv text) "" ≡ false
seal_nonempty iv text = elim (Bool-cases (str_eq (str_append "x" text) "")) [
  | inr e ↦ e
  | inl e ↦ ground (arith, ap len ((eq_iff (str_append "x" text) "").0 e), len-append "x" text)
]

abbrev secret : Named
secret = record {
  tenant_id = "acme";
  name = "password";
  scope = "tenant";
  scope_id = none;
  user = "system";
}

abbrev other : Named
other = record {
  tenant_id = "acme";
  name = "token";
  scope = "application";
  scope_id = some "shop";
  user = "ana";
}

abbrev before : List Call
before = saves 1 "a" "b" "long enough" secret ∷ saves 2 "c" "d" "t" other ∷ []

abbrev after : List Call
after =
    saves 4 "g" "h" "another one" secret
    ∷ deletes secret
    ∷ rotates 5 "o" "p" "k1f9" other
    ∷ saves 5 "i" "j" "" secret
    ∷ rolls_back 6 "k" "l" 1 other
    ∷ []

abbrev kept : Vault
kept = call_all outside before new_vault

rollback_secret-save_secret_example :
    let n = length (get_versions outside "acme" (get_store_key secret) kept) + 1 in
    let w = call_all outside after (save_secret outside 3 "e" "f" "the password" secret kept).0 in
    let r = rollback_secret outside 7 "m" "n" n secret w in
    (r.1 ≡ none) × ((get_secret outside secret r.0).1 ≡ some "the password")
unfolding validate_secret
rollback_secret-save_secret_example =
    rollback_secret-save_secret outside unseal-seal seal_nonempty before after 3 7 "e" "f" "m" "n"
      "the password" secret refl
