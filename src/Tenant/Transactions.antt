-- ===== src/Tenant/Transactions.antt =====
-- platform/tenant-manager/transactions: a workflow of steps, and its compensation. The steps
-- themselves write files, call Docker and psql; what one does to the context and to the world
-- is an argument.
pub mod Rollback
mod Examples
use sj_cloud.Prelude.{ℕ, String, List, [], ◌∷◌, ◌++◌, Option, none, some, reverse}

-- `TransactionStep` on a world `W` that holds the context: what either method does to it, and the
-- error that it throws
pub record Step {ℓ} (W : Type ℓ) : Type ℓ where
  pub name : String
  pub execute : W → W × Option String
  pub compensate : W → W × Option String

module _ {ℓ} {W : Type ℓ} where
  -- `Transaction.addStep`
  unfoldable pub add_step : List (Step W) → Step W → List (Step W)
  add_step steps step = steps ++ step ∷ []

  -- `Compensation.execute`: the loop compensates the last step first; the error of a compensation
  -- is caught
  unfoldable pub compensate_all : List (Step W) → W → W
  compensate_all [] w = w
  compensate_all (step ∷ steps) w = (step.compensate (compensate_all steps w)).0

  -- the `try` and the `catch` around a step: the rest of the loop, or the compensation of the
  -- executed steps and the error again
  abbrev pub guarded :
      W × Option String → (W → W × Option String) → List (Step W) → W × Option String
  guarded (w, none) rest executed = rest w
  guarded (w, some e) rest executed = (compensate_all executed w, some e)

  -- the loop of `TransactionRunner.run`
  unfoldable pub run_from : List (Step W) → List (Step W) → W → W × Option String
  run_from executed [] w = (w, none)
  run_from executed (step ∷ steps) w =
      guarded (step.execute w) (λ after. run_from (executed ++ step ∷ []) steps after) executed

  -- `TransactionRunner.run`; the context that it returns is in the world
  unfoldable pub run : List (Step W) → W → W × Option String
  run steps w = run_from [] steps w
