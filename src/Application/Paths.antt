-- ===== src/Application/Paths.antt =====
-- The paths of an application's deployment.
use sj_cloud.Prelude.{
  Bool, true, false, ◌||◌, List, [], ◌∷◌, Option, none, some, ◌≡◌, refl, arith, some_of,
  if◌then◌else◌, Bool-cases, inl, inr,
}
use sj_cloud.Application.Deployment.{
  DeploymentState, created, building, built, deploying, verifying, active, scaling, updating,
  failed, rollback, archived, same, valid_transitions, is_valid_transition,
}

-- the state that a path of accepted transitions leads to
unfoldable pub follow : List DeploymentState → DeploymentState → Option DeploymentState
unfolding is_valid_transition
follow [] s = some s
follow (next ∷ rest) s =
    let there = follow rest next in if is_valid_transition (some s) next then there else none

-- the states in which an application serves, or is about to serve again without a check
abbrev pub is_live : DeploymentState → Bool
is_live s = same s active || same s scaling

-- the states that check an application or put back what was checked before
abbrev pub is_checked : DeploymentState → Bool
is_checked s = same s verifying || same s rollback

-- From a state that is neither live nor a check, no transition leads to a live state.
live-entered :
    (s next : DeploymentState)
    → is_live s ≡ false
    → is_checked s ≡ false
    → some_of (same next) (valid_transitions s) ≡ true
    → is_live next ≡ false
live-entered s created l c h = refl
live-entered s building l c h = refl
live-entered s built l c h = refl
live-entered s deploying l c h = refl
live-entered s verifying l c h = refl
live-entered created active l c h = ground arith
live-entered building active l c h = ground arith
live-entered built active l c h = ground arith
live-entered deploying active l c h = ground arith
live-entered verifying active l c h = ground arith
live-entered active active l c h = ground arith
live-entered scaling active l c h = ground arith
live-entered updating active l c h = ground arith
live-entered failed active l c h = ground arith
live-entered rollback active l c h = ground arith
live-entered archived active l c h = ground arith
live-entered created scaling l c h = ground arith
live-entered building scaling l c h = ground arith
live-entered built scaling l c h = ground arith
live-entered deploying scaling l c h = ground arith
live-entered verifying scaling l c h = ground arith
live-entered active scaling l c h = ground arith
live-entered scaling scaling l c h = ground arith
live-entered updating scaling l c h = ground arith
live-entered failed scaling l c h = ground arith
live-entered rollback scaling l c h = ground arith
live-entered archived scaling l c h = ground arith
live-entered s updating l c h = refl
live-entered s failed l c h = refl
live-entered s rollback l c h = refl
live-entered s archived l c h = refl

live-active : (s : DeploymentState) → s ≡ active → is_live s ≡ true
live-active s q = rw q refl

live-checked :
    (path : List DeploymentState) (s : DeploymentState)
    → is_live s ≡ false
    → is_checked s ≡ false
    → follow path s ≡ some active
    → some_of is_checked path ≡ true
unfolding follow is_valid_transition
live-checked [] s l c h = ground (arith, live-active s)
live-checked (next ∷ rest) s l c h = elim (Bool-cases (some_of (same next) (valid_transitions s))) [
  | inl k ↦ elim (Bool-cases (is_checked next)) [
    | inl q ↦ rw q refl
    | inr q ↦ rw q (live-checked rest next (live-entered s next l c k) q (ground arith))
  ]
  | inr k ↦ ground arith
]

-- A path of accepted transitions from `CREATED` to `ACTIVE` goes through `VERIFYING` or `ROLLBACK`.
pub follow-active :
    (path : List DeploymentState)
    → follow path created ≡ some active
    → some_of is_checked path ≡ true
follow-active path h = live-checked path created refl refl h
