-- ===== src/Tenant/Transactions/Rollback.antt =====
-- How a transaction ends.
use sj_cloud.Prelude.{
  String, List, [], ◌∷◌, ◌++◌, Option, none, some, ◌≡◌, refl, ap, subst, sym, ◌⊎◌, inl, inr,
}
use sj_cloud.Tenant.Transactions.{Step, compensate_all, guarded, run_from, run}

module _ {ℓ} {W : Type ℓ} where
  -- the steps run one after the other, none with an error, from a world to another
  pub data Executed : List (Step W) → W → W → Type ℓ where
    nothing : {w : W} → Executed [] w w
    then_step :
        {steps : List (Step W)} {w between after : W} (step : Step W)
        → Executed steps w between
        → step.execute between ≡ (after, none)
        → Executed (steps ++ step ∷ []) w after

  -- the steps compensated one after the other, the last of the list first, from a world to another
  pub data Compensated : List (Step W) → W → W → Type ℓ where
    all_done : {w : W} → Compensated [] w w
    last_first :
        {steps : List (Step W)} {w after : W} (step : Step W)
        → Compensated steps (step.compensate w).0 after
        → Compensated (steps ++ step ∷ []) w after

  -- what a transaction that has executed some steps, and has others to run, comes to
  pub data Ends (executed steps : List (Step W)) (w : W) : W × Option String → Type ℓ where
    completes :
        {after : W} → Executed (executed ++ steps) w after → Ends executed steps w (after, none)
    fails :
        {before broken after : W} {e : String} (more : List (Step W)) (step : Step W)
        (rest : List (Step W))
        → steps ≡ more ++ step ∷ rest
        → Executed (executed ++ more) w before
        → step.execute before ≡ (broken, some e)
        → Compensated (executed ++ more) broken after
        → Ends executed steps w (after, some e)

  front-Compensated :
      (first : Step W) (steps : List (Step W)) (w after : W)
      → Compensated steps w after
      → Compensated (first ∷ steps) w (first.compensate after).0
  front-Compensated first steps w after all_done = last_first {steps = []} first all_done
  front-Compensated first steps w after (last_first {steps = front} step c) =
      last_first {steps = first ∷ front} step
        (front-Compensated first front (step.compensate w).0 after c)

  compensate_all-Compensated :
      (steps : List (Step W)) (w : W) → Compensated steps w (compensate_all steps w)
  unfolding compensate_all
  compensate_all-Compensated [] w = all_done
  compensate_all-Compensated (first ∷ steps) w =
      front-Compensated first steps w (compensate_all steps w) (compensate_all-Compensated steps w)

  append_nil : (xs : List (Step W)) → xs ++ [] ≡ xs
  append_nil [] = refl
  append_nil (x ∷ xs) = ap (λ ys. x ∷ ys) (append_nil xs)

  append_assoc : (xs ys zs : List (Step W)) → (xs ++ ys) ++ zs ≡ xs ++ (ys ++ zs)
  append_assoc [] ys zs = refl
  append_assoc (x ∷ xs) ys zs = ap (λ rest. x ∷ rest) (append_assoc xs ys zs)

  outcome-cases :
      (r : W × Option String)
      → ((after : W) × (r ≡ (after, none))) ⊎ ((broken : W) × (e : String) × (r ≡ (broken, some e)))
  outcome-cases (w, none) = inl (w, refl)
  outcome-cases (w, some e) = inr (w, e, refl)

  advance :
      (executed : List (Step W)) (step : Step W) (steps : List (Step W)) (w : W)
      (r : W × Option String)
      → Ends (executed ++ step ∷ []) steps w r
      → Ends executed (step ∷ steps) w r
  advance executed step steps w r (completes x) =
      completes (rw (← append_assoc executed (step ∷ []) steps) x)
  advance executed step steps w r (fails more failing rest e x f c) =
      (fails (step ∷ more) failing rest (ap (λ ys. step ∷ ys) e)
        (rw (← append_assoc executed (step ∷ []) more) x) f
        (rw (← append_assoc executed (step ∷ []) more) c))

  run_from-Ends :
      (executed steps : List (Step W)) (w between : W)
      → Executed executed w between
      → Ends executed steps w (run_from executed steps between)
  unfolding run_from
  run_from-Ends executed [] w between x = completes (rw (append_nil executed) x)
  run_from-Ends executed (step ∷ steps) w between x =
      let rest : W → W × Option String = λ after. run_from (executed ++ step ∷ []) steps after in
      elim (outcome-cases (step.execute between)) [
        | inl (after, q) ↦
            subst (λ r. Ends executed (step ∷ steps) w (guarded r rest executed)) (sym q)
              (advance executed step steps w (run_from (executed ++ step ∷ []) steps after)
                (run_from-Ends (executed ++ step ∷ []) steps w after (then_step step x q)))
        | inr (broken, e, q) ↦
            subst (λ r. Ends executed (step ∷ steps) w (guarded r rest executed)) (sym q)
              (fails [] step steps refl (rw (append_nil executed) x) q
                (rw (append_nil executed) (compensate_all-Compensated executed broken)))
      ]

  -- A transaction ends in one of two ways. It returns, and every step was executed without an
  -- error, in order. Or it throws the error of a step: the steps before it were executed without an
  -- error, and they, and no other, were compensated, the last one first.
  pub run-Ends : (steps : List (Step W)) (w : W) → Ends [] steps w (run steps w)
  unfolding run
  run-Ends steps w = run_from-Ends [] steps w w nothing
