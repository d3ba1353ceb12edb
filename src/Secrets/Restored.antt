-- ===== src/Secrets/Restored.antt =====
-- The versions only grow, so a rollback gives back what was saved.
use sj_cloud.Secrets.{
  Outside, encrypt, decrypt, Vault, Named, get_store_key, local_key, validate_secret, versions_of,
  save_version, shown, get_versions, match_of, version_value, store_secret, save_secret, get_secret,
  delete_secret, rollback_secret, rotate, rotated, is_kept, saved, rolled, rolled_to,
}
use sj_cloud.Secrets.Versions.{
  Call, saves, gets, deletes, rotates, rolls_back, call, call_all, new_vault, Grows, same, Extends,
  Grows-trans, Grows-All, new_vault-All, sought, sought-last, sought-Grows, entry,
  versions_of-save_version, save_version-Extends,
}
use Prim.Native.String.{◌++◌ as str_append}
use sj_cloud.Prelude.{
  Bool, true, false, ℕ, ◌+◌, ◌≡◌, refl, sym, ap, subst, ◌∙◌, String, false, List, [], ◌∷◌, ◌++◌,
  Option, none, some, lookup-put_self, str_eq, eq_iff, length, length-map, Result, ok, err,
  Bool-cases, inl, inr,
}

saved-Extends :
    (o : Outside) (now : ℕ) (iv1 iv2 value : String) (q : Named) (e : Option String) (v : Vault)
    → Extends v (saved o now iv1 iv2 value q e v).0
unfolding store_secret
saved-Extends o now iv1 iv2 value q (some e) v t k = same
saved-Extends o now iv1 iv2 value q none v t k =
    save_version-Extends o now iv2 q.tenant_id (get_store_key q) value
      (store_secret o iv1 value q v) t k

rolled-Extends :
    (v : Vault) (q : Named) (r : Vault × Option String) → Extends v r.0 → Extends v (rolled q r).0
rolled-Extends v q (w, some e) h = h
rolled-Extends v q (w, none) h = h

rolled_to-Extends :
    (o : Outside) (now : ℕ) (iv1 iv2 : String) (q : Named) (r : Result String String) (v : Vault)
    → Extends v (rolled_to o now iv1 iv2 q r v).0
unfolding save_secret
rolled_to-Extends o now iv1 iv2 q (err e) v t k = same
rolled_to-Extends o now iv1 iv2 q (ok value) v t k =
    rolled-Extends v q (save_secret o now iv1 iv2 value q v)
      (saved-Extends o now iv1 iv2 value q (validate_secret o q.name value) v) t k

rotated-Extends :
    (o : Outside) (now : ℕ) (iv1 iv2 drawn : String) (q : Named) (found : Bool) (v : Vault)
    → Extends v (rotated o now iv1 iv2 drawn q found v).0
unfolding save_secret
rotated-Extends o now iv1 iv2 drawn q false v t k = same
rotated-Extends o now iv1 iv2 drawn q true v t k =
    let value = str_append "rotated_" drawn in
    saved-Extends o now iv1 iv2 value q (validate_secret o q.name value) v t k

call-Extends : (o : Outside) (c : Call) (v : Vault) → Extends v (call o c v)
unfolding save_secret get_secret delete_secret rollback_secret rotate
call-Extends o (saves now iv1 iv2 value q) v t k =
    saved-Extends o now iv1 iv2 value q (validate_secret o q.name value) v t k
call-Extends o (rotates now iv1 iv2 drawn q) v t k =
    let r = get_secret o (record q { user = "system" }) v in
    rotated-Extends o now iv1 iv2 drawn (record q { user = "system" }) (is_kept r.1) r.0 t k
call-Extends o (gets q) v t k = same
call-Extends o (deletes q) v t k = same
call-Extends o (rolls_back now iv1 iv2 target q) v t k =
    rolled_to-Extends o now iv1 iv2 q (version_value o q.tenant_id (get_store_key q) target v) v t k

call_all-Extends : (o : Outside) (calls : List Call) (v : Vault) → Extends v (call_all o calls v)
unfolding call_all
call_all-Extends o [] v t k = same
call_all-Extends o (c ∷ rest) v t k =
    Grows-trans _ _ _ (call-Extends o c v t k) (call_all-Extends o rest (call o c v) t k)

decrypt-encrypt :
    (o : Outside)
    → ((iv text : String) → o.unseal (o.seal iv text) ≡ text)
    → ((iv text : String) → str_eq (o.seal iv text) "" ≡ false)
    → (iv text : String) → decrypt o (encrypt o iv text) ≡ text
decrypt-encrypt o r s iv text = elim (Bool-cases (str_eq text "")) [
  | inl e ↦ rw e (sym ((eq_iff text "").0 e))
  | inr e ↦ rw (e, s iv text) (r iv text)
]

saved_get :
    (o : Outside)
    → ((iv text : String) → o.unseal (o.seal iv text) ≡ text)
    → ((iv text : String) → str_eq (o.seal iv text) "" ≡ false)
    → (now : ℕ) (iv1 iv2 value : String) (q : Named) (v : Vault)
    → (get_secret o q (rolled q (saved o now iv1 iv2 value q none v)).0).1 ≡ some value
unfolding get_secret save_version store_secret
saved_get o r s now iv1 iv2 value q v =
    rw (lookup-put_self (local_key q) (encrypt o iv1 value) v.local_store)
      (ap some (decrypt-encrypt o r s iv1 value))

-- the value that the version manager has for the version that a save made
version_value-save :
    (o : Outside)
    → ((iv text : String) → o.unseal (o.seal iv text) ≡ text)
    → ((iv text : String) → str_eq (o.seal iv text) "" ≡ false)
    → (before after : List Call) (now : ℕ) (iv1 iv2 value : String) (q : Named)
    → validate_secret o q.name value ≡ none
    → version_value o q.tenant_id
        (get_store_key q)
        (length (get_versions o q.tenant_id (get_store_key q) (call_all o before new_vault)) + 1)
        (call_all o after (save_secret o now iv1 iv2 value q (call_all o before new_vault)).0)
      ≡ ok value
unfolding version_value get_versions save_secret store_secret
version_value-save o r s before after now iv1 iv2 value q valid =
    let t = q.tenant_id in
    let k = get_store_key q in
    let v = call_all o before new_vault in
    let u = store_secret o iv1 value q v in
    let w = (save_secret o now iv1 iv2 value q v).0 in
    let x = entry o now iv2 t k value u in
    let n = length (versions_of t k v) in
    let numbered : sought o (n + 1) (versions_of t k v ++ (x ∷ [])) ≡ some (shown o x) =
      sought-last o (versions_of t k v) x n
        (Grows-All (versions_of t k new_vault) (versions_of t k v)
          (call_all-Extends o before new_vault t k) (new_vault-All t k))
        refl in
    let written : versions_of t k w ≡ versions_of t k v ++ (x ∷ []) =
      rw valid (versions_of-save_version o now iv2 t k value u) in
    let kept : sought o (n + 1) (versions_of t k (call_all o after w)) ≡ some (shown o x) =
      sought-Grows o (n + 1) (versions_of t k v ++ (x ∷ [])) (versions_of t k (call_all o after w))
        (shown o x)
        (subst (λ l. Grows l (versions_of t k (call_all o after w))) written
          (call_all-Extends o after w t k))
        numbered in
    ap (λ m. match_of (sought o (m + 1) (versions_of t k (call_all o after w))))
      (length-map (shown o) (versions_of t k v))
    ∙ ap match_of kept
    ∙ ap ok (decrypt-encrypt o r s iv2 value)

rolled_to-saved :
    (o : Outside) (now : ℕ) (iv1 iv2 value : String) (q : Named) (v : Vault)
    → validate_secret o q.name value ≡ none
    → rolled_to o now iv1 iv2 q (ok value) v ≡ rolled q (saved o now iv1 iv2 value q none v)
unfolding save_secret
rolled_to-saved o now iv1 iv2 value q v valid = rw valid refl

-- Where the cipher takes back what it gives, which is never the empty text, a secret that passes the
-- validation is saved after any calls of the manager that start from nothing. Then any calls
-- follow, of this or of other secrets: saves, reads, deletions, rotations and rollbacks. A rollback
-- to the version that the save made, whose number is one more than the versions that the secret had,
-- then succeeds, and the secret reads as the value that was saved.
pub rollback_secret-save_secret :
    (o : Outside)
    → ((iv text : String) → o.unseal (o.seal iv text) ≡ text)
    → ((iv text : String) → str_eq (o.seal iv text) "" ≡ false)
    → (before after : List Call) (now later : ℕ) (iv1 iv2 iv3 iv4 value : String) (q : Named)
    → validate_secret o q.name value ≡ none
    → let v = call_all o before new_vault in
      let n = length (get_versions o q.tenant_id (get_store_key q) v) + 1 in
      let w = call_all o after (save_secret o now iv1 iv2 value q v).0 in
      let r = rollback_secret o later iv3 iv4 n q w in
      (r.1 ≡ none) × ((get_secret o q r.0).1 ≡ some value)
unfolding rollback_secret
rollback_secret-save_secret o r s before after now later iv1 iv2 iv3 iv4 value q valid =
    let w = call_all o after (save_secret o now iv1 iv2 value q (call_all o before new_vault)).0 in
    rw
      (
        version_value-save o r s before after now iv1 iv2 value q valid,
        rolled_to-saved o later iv3 iv4 value q w valid,
      )
      (refl, saved_get o r s later iv3 iv4 value q w)
