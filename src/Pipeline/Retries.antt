-- ===== src/Pipeline/Retries.antt =====
-- When a step is tried again.
use sj_cloud.Prelude.{
  ℕ, zero, suc, ◌+◌, ◌*◌, ◌≡◌, refl, String, [], ◌∷◌, none, some, Result, ok, err, or_else, length,
  ap, arith,
}
use sj_cloud.Pipeline.Executor.{
  Step, executing, completed, output_of, tried, exhausted, followed, execute_from, execute_step,
}

at_once :
    (step : Step) (shell : String → Result String String) (command : String) (left : ℕ)
    → step.run ≡ some command
    → execute_from step shell 0 left
      ≡ (executing 0 ∷ completed 0 ∷ [], ok (output_of command (shell command)))
unfolding execute_from
at_once step shell command zero h = rw (h, tried, followed) refl
at_once step shell command (suc left) h = rw (h, tried, followed) refl

-- A step that has a command succeeds at its first attempt, whatever the shell answers or throws: no
-- step with a command is ever tried again.
pub execute_step-command :
    (step : Step) (shell : String → Result String String) (command : String)
    → step.run ≡ some command
    → execute_step step shell
      ≡ (executing 0 ∷ completed 0 ∷ [], ok (output_of command (shell command)))
unfolding execute_step
execute_step-command step shell command h = at_once step shell command (or_else step.retry 0) h

-- the error of reading the command of a step that has none
abbrev pub no_command : String
no_command = "Cannot read properties of undefined (reading 'startsWith')"

missing_from :
    (step : Step) (shell : String → Result String String) (attempt left last : ℕ)
    → step.run ≡ none
    → attempt + left ≡ last
    → let (lines, result) = execute_from step shell attempt left in
      (length lines ≡ 2 + 3 * left) × (result ≡ err (exhausted step last no_command))
unfolding execute_from
missing_from step shell attempt zero last h q =
    let same : attempt ≡ last = omega (arith, q) in
    rw (h, tried, followed) (omega arith, ap (λ n. err (exhausted step n no_command)) same)
missing_from step shell attempt (suc left) last h q =
    let (lines, result) = missing_from step shell (attempt + 1) left last h (omega (arith, q)) in
    rw (h, tried, followed) (omega (arith, lines), result)

-- A step that has no command throws an error with the number of its attempts, which is one more
-- than its retries, after two lines of the log and three more for every retry.
pub execute_step-missing :
    (step : Step) (shell : String → Result String String)
    → step.run ≡ none
    → let (lines, result) = execute_step step shell in
      let retries = or_else step.retry 0 in
      (length lines ≡ 2 + 3 * retries) × (result ≡ err (exhausted step retries no_command))
unfolding execute_step
execute_step-missing step shell h =
    let retries = or_else step.retry 0 in missing_from step shell 0 retries retries h (omega arith)
