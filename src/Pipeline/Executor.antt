-- ===== src/Pipeline/Executor.antt =====
-- platform/pipeline-engine/pipeline-executor.js: a step of a pipeline and its retries. The clock, the
-- environment and the timeout of the command are left out; `shell` is what `execSync` gives or throws.
use Prim.Native.String
use text.Mathlib.Text.{starts_with, find?}
use sj_cloud.Prelude.{
  ℕ, zero, suc, ◌+◌, String, Bool, true, false, ◌||◌, List, [], ◌∷◌, Option, none, some, Result, ok,
  err, or_else, to_text, str_eq, if◌then◌else◌,
}

pub record Step : Type 0 where
  pub name : Option String
  pub run : Option String
  pub retry : Option ℕ

-- the lines of the log, with the number of the attempt
pub data Line : Type 0 where
  executing completed failed retrying : ℕ → Line

abbrev pub name_of : Option String → String
name_of none = "Unnamed Step"
name_of (some n) = if str_eq n "" then "Unnamed Step" else n

abbrev pub is_found : Option ℕ → Bool
is_found none = false
is_found (some i) = true

-- the commands that are not run
abbrev pub is_simulated : String → Bool
is_simulated command =
    starts_with command "echo"
    || (is_found (find? command "mock")
        || (starts_with command "exit 0"
            || (starts_with command "npm"
                || (starts_with command "zip" || starts_with command "verify"))))

-- what the shell answers; its error is caught, and told in the output
abbrev pub shell_output : String → Result String String → String
shell_output command (ok stdout) = stdout
shell_output command (err e) =
    String.◌++◌ "Fallback mock output for command: "
      (String.◌++◌ command (String.◌++◌ "\nError: " e))

abbrev pub output_of : String → Result String String → String
output_of command result =
    if is_simulated command
    then String.◌++◌ "Mock output for: " (String.◌++◌ command "\nSuccess.")
    else shell_output command result

-- the body of the `try`; a step without a command throws when the command is read
abbrev pub tried : Option String → (String → Result String String) → Result String String
tried none shell = err "Cannot read properties of undefined (reading 'startsWith')"
tried (some command) shell = ok (output_of command (shell command))

-- the error after the last attempt
abbrev pub exhausted : Step → ℕ → String → String
exhausted step retries last = String.◌++◌ "Step \"" (
    String.◌++◌ (name_of step.name) (
      String.◌++◌ "\" failed after "
        (String.◌++◌ (to_text (retries + 1)) (String.◌++◌ " attempts. Last error: " last))))

-- What follows an attempt: the output, or the rest of the loop, if any is left, with its lines.
abbrev pub followed :
    ℕ
    → ℕ
    → Result String String
    → (String → List Line × Result String String)
    → List Line × Result String String
followed attempt left (ok stdout) rest = (executing attempt ∷ completed attempt ∷ [], ok stdout)
followed attempt zero (err e) rest =
    let (lines, result) = rest e in (executing attempt ∷ failed attempt ∷ lines, result)
followed attempt (suc left) (err e) rest =
    let (lines, result) = rest e in
    (executing attempt ∷ failed attempt ∷ retrying attempt ∷ lines, result)

-- the `while`, at an attempt, with the number of attempts that are left after it
unfoldable pub execute_from :
    Step → (String → Result String String) → ℕ → ℕ → List Line × Result String String
execute_from step shell attempt zero =
    followed attempt zero (tried step.run shell) λ e. ([], err (exhausted step attempt e))
execute_from step shell attempt (suc left) =
    let rest = execute_from step shell (attempt + 1) left in
    followed attempt (suc left) (tried step.run shell) λ e. rest

-- `executeStep`: the lines of the log, and the logs of the step or its error
unfoldable pub execute_step :
    Step → (String → Result String String) → List Line × Result String String
execute_step step shell = execute_from step shell 0 (or_else step.retry 0)
