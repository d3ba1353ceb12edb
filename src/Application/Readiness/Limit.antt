-- ===== src/Application/Readiness/Limit.antt =====
-- The attempts of a readiness check.
use sj_cloud.Prelude.{
  ℕ, zero, suc, ◌+◌, ◌*◌, ◌≤◌, ◌<◌, ◌≡◌, refl, arith, String, Bool, true, false, List, [], ◌∷◌,
  length, length-append, Bool-cases, ◌⊎◌, inl, inr, ◌==◌, subst, sym,
}
use sj_cloud.Application.Readiness.{
  Options, health_policy, Check, record_check, attempts, verify_readiness,
}

-- the first healthy answer is the `k`-th
pub record IsFirst (answers : ℕ → Bool) (from k : ℕ) : Type 0 where
  pub after : from < k
  pub healthy : answers k ≡ true
  pub earlier : (i : ℕ) → from < i → i < k → answers i ≡ false

length-record_check :
    (c : Check) (history : List Check) → length (record_check c history) ≡ length history + 1
length-record_check c history = length-append history (c ∷ [])

pub attempts-cases :
    (answers : ℕ → Bool) (id : String) (left made : ℕ) (history : List Check)
    → ((k : ℕ) × (k ≤ made + left)
        × IsFirst answers made k
        × ((attempts answers id left made history).0 ≡ true)
        × (length (attempts answers id left made history).1 + made ≡ length history + k))
      ⊎ (((attempts answers id left made history).0 ≡ false)
          × ((i : ℕ) → made < i → i ≤ made + left → answers i ≡ false)
          × (length (attempts answers id left made history).1 ≡ length history + left))
unfolding attempts
attempts-cases answers id zero made history = inr (refl, λ i h k. ground (arith, h, k), omega arith)
attempts-cases answers id (suc left) made history =
    let check : Check = record { app_id = id; healthy = false; attempt = made + 1 } in
    elim (Bool-cases (answers (made + 1))) [
      | inl e ↦ inl (
        made + 1,
        omega arith,
        record { after = omega arith; healthy = e; earlier = λ i h k. ground (arith, h, k) },
        rw e refl,
        rw e (
            omega (
              arith,
              length-record_check (record { app_id = id; healthy = true; attempt = made + 1 })
                  history,
            )),
      )
      | inr e ↦ elim (attempts-cases answers id left (made + 1) (record_check check history)) [
        | inl (k, b, f, r, n) ↦ inl (
          k,
          omega (arith, b),
          record {
            after = omega (arith, f.after);
            healthy = f.healthy;
            earlier = λ i h l. elim (Bool-cases (i == made + 1)) [
              | inl q ↦ subst (λ x. answers x ≡ false) (sym (ground (arith, q))) e
              | inr q ↦ f.earlier i (ground (arith, q, h)) l
            ];
          },
          rw e r,
          rw e (omega (arith, n, length-record_check check history)),
        )
        | inr (r, f, n) ↦ inr (
          rw e r,
          λ i h l. elim (Bool-cases (i == made + 1)) [
            | inl q ↦ subst (λ x. answers x ≡ false) (sym (ground (arith, q))) e
            | inr q ↦ f i (ground (arith, q, h)) (omega (arith, l))
          ],
          rw e (omega (arith, n, length-record_check check history)),
        )
      ]
    ]

-- A readiness check makes at most twice as many attempts as the threshold of the policy, 3 where the
-- options have none or 0. Either it ends with the first healthy answer, its `k`-th attempt, says so
-- and has added `k` entries to the history; or no attempt up to the limit is answered as healthy, it
-- fails, and has added one entry for every attempt.
pub verify_readiness-cases :
    (answers : ℕ → Bool) (id : String) (o : Options) (history : List Check)
    → ((k : ℕ) × (k ≤ (health_policy o).threshold * 2)
        × IsFirst answers 0 k
        × ((verify_readiness answers id o history).0 ≡ true)
        × (length (verify_readiness answers id o history).1 ≡ length history + k))
      ⊎ (((verify_readiness answers id o history).0 ≡ false)
          × ((i : ℕ) → 0 < i → i ≤ (health_policy o).threshold * 2 → answers i ≡ false)
          × (length (verify_readiness answers id o history).1
              ≡ length history + (health_policy o).threshold * 2))
unfolding verify_readiness
verify_readiness-cases answers id o history =
    elim (attempts-cases answers id ((health_policy o).threshold * 2) 0 history) [
      | inl (k, b, f, r, n) ↦ inl (k, omega (arith, b), f, r, omega (arith, n))
      | inr (r, f, n) ↦ inr (r, λ i h l. f i h (omega (arith, l)), n)
    ]
