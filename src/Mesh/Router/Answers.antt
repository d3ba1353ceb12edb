-- ===== src/Mesh/Router/Answers.antt =====
-- How the loop of `routeRequest` ends.
use sj_cloud.Prelude.{
  ℕ, zero, suc, ◌+◌, ◌≤◌, ◌<◌, ◌≡◌, refl, sym, subst, String, Option, none, some, arith, true,
  false, Bool-cases, inl, inr, ltb, or_else-pos, lookup,
}
use sj_cloud.Mesh.Router.Requests.{
  Request, Outcome, answered, failed, Response, gateway_failure, Failure, http_error, MeshState,
  ServiceConfig, max_attempts_of, retry_of,
}
use sj_cloud.Mesh.Backoff.{is_eligible_for_retry}
use sj_cloud.Mesh.Router.Attempt.{
  Flight, Admission, refused, admitted, admit, Launch, rejected, launched, launch, Landing, done,
  retry, land, catch_failure, may_retry, guard_source,
}
use sj_cloud.Mesh.Router.Loop.{
  World, after_launch, attempt_once, next_attempt, attempts, after_admission, route_request,
}

-- A retry is a later attempt of the same flight, and there is room for it.
abbrev pub IsNext : Flight → Landing → Type 0
IsNext f (done r) = Unit
IsNext f (retry d f') =
    (f.attempt < max_attempts_of f.config)
    × (f' ≡ record f { attempt = f.attempt + 1 })
    × (is_eligible_for_retry f.request.method (retry_of f.config).retry_on_non_idempotent ≡ true)

-- An answer that gives up tells the number of the attempt that failed last.
abbrev pub Tells : ℕ → Landing → Type 0
Tells n (done (gateway_failure status why attempts)) = attempts ≡ n
Tells n (done _) = Unit
Tells n (retry d f) = Unit

catch_failure-IsNext :
    (now jitter : ℕ) (why : Failure) (f : Flight) (url : String) (s : MeshState)
    → IsNext f (catch_failure now jitter why f url s).0
      × Tells f.attempt (catch_failure now jitter why f url s).0
unfolding catch_failure may_retry
catch_failure-IsNext now jitter why f url s = ground arith

land-IsNext :
    (now jitter : ℕ) (o : Outcome) (f : Flight) (url : String) (s : MeshState)
    → IsNext f (land now jitter o f url s).0 × Tells f.attempt (land now jitter o f url s).0
unfolding land
land-IsNext now jitter (failed why) f url s = catch_failure-IsNext now jitter why f url s
land-IsNext now jitter (answered status) f url s = elim (Bool-cases (ltb status 500)) [
  | inl handled ↦ rw handled (tt, tt)
  | inr broken ↦ rw broken (catch_failure-IsNext now jitter (http_error status) f url _)
]

after_launch-IsNext :
    (w : World) (f : Flight) (r : Launch × MeshState)
    → IsNext f (after_launch w f r).0 × Tells f.attempt (after_launch w f r).0
unfolding after_launch
after_launch-IsNext w f (rejected e, s) = (tt, tt)
after_launch-IsNext w f (launched url, s) = land-IsNext w.ended w.jitter w.outcome f url s

-- what the loop has returned: an answer, within the attempts that are left
abbrev pub Answers : Flight → Option (Response × MeshState) → Type 0
Answers f none = ⊥
Answers f (some (gateway_failure status why n, s)) =
    (f.attempt ≤ n)
    × (n ≤ max_attempts_of f.config)
    × (is_eligible_for_retry f.request.method (retry_of f.config).retry_on_non_idempotent ≡ false
        → n ≡ f.attempt)
Answers f (some (_, s)) = Unit

Answers-next :
    (f : Flight) (o : Option (Response × MeshState))
    → is_eligible_for_retry f.request.method (retry_of f.config).retry_on_non_idempotent ≡ true
    → Answers (record f { attempt = f.attempt + 1 }) o
    → Answers f o
Answers-next f o e h = ground arith

-- one round: an answer, or the rounds that follow
next_attempt-Answers :
    (fuel : ℕ) (world : ℕ → World) (f : Flight)
    → f.attempt ≤ max_attempts_of f.config
    → max_attempts_of f.config < suc fuel + f.attempt
    → ((f' : Flight) (s' : MeshState)
        → f'.attempt ≤ max_attempts_of f'.config
        → max_attempts_of f'.config < fuel + f'.attempt
        → Answers f' (attempts fuel world f' s'))
    → (r : Landing × MeshState) → IsNext f r.0 × Tells f.attempt r.0
    → Answers f (next_attempt (attempts fuel world) r)
unfolding next_attempt
next_attempt-Answers fuel world f room enough again (done (gateway_failure status why n), s') h =
    (omega (arith, h.1), omega (arith, h.1), λ _. h.1)
next_attempt-Answers fuel world f room enough again (done _, s') h = tt
next_attempt-Answers fuel world f room enough again (retry d f', s') h =
    let (below, same, eligible) = h.0 in
    let f'' : Flight = record f { attempt = f.attempt + 1 } in
    Answers-next f _ eligible (
      subst (λ (x : Flight). Answers f'' (attempts fuel world x s')) (sym same)
        (again f'' s' (omega arith) (omega arith)))

attempts-Answers :
    (fuel : ℕ) (world : ℕ → World) (f : Flight) (s : MeshState)
    → f.attempt ≤ max_attempts_of f.config
    → max_attempts_of f.config < fuel + f.attempt
    → Answers f (attempts fuel world f s)
unfolding attempts attempt_once
attempts-Answers zero world f s room enough = absurd (omega arith)
attempts-Answers (suc fuel) world f s room enough =
    next_attempt-Answers fuel world f room enough (attempts-Answers fuel world)
      (attempt_once (world f.attempt) f s)
      (after_launch-IsNext (world f.attempt) f (launch _ _ f s))

-- what a request comes to: an answer; a gateway failure names a number of attempts within the
-- policy's limit, and a single one where the method and the policy allow no retry
abbrev pub IsAnswered : Option ServiceConfig → Request → Option (Response × MeshState) → Type 0
IsAnswered c r none = ⊥
IsAnswered none r (some (gateway_failure status why n, s)) = ⊥
IsAnswered (some c) r (some (gateway_failure status why n, s)) =
    (1 ≤ n)
    × (n ≤ max_attempts_of c)
    × (is_eligible_for_retry r.method (retry_of c).retry_on_non_idempotent ≡ false → n ≡ 1)
IsAnswered c r (some (_, s)) = Unit

max_attempts-pos : (c : ServiceConfig) → 1 ≤ max_attempts_of c
max_attempts-pos c = or_else-pos (retry_of c).max_attempts 3 (omega arith)

Answers-IsAnswered :
    (f : Flight) (o : Option (Response × MeshState))
    → f.attempt ≡ 1
    → Answers f o
    → IsAnswered (some f.config) f.request o
Answers-IsAnswered f o e h = ground arith

-- the flight of an admitted request
abbrev Starts : ℕ → Request → Option ServiceConfig → Admission → Type 0
Starts now r c (refused (gateway_failure status why n)) = ⊥
Starts now r c (refused _) = Unit
Starts now r none (admitted f) = ⊥
Starts now r (some c) (admitted f) =
    f ≡ record { request = r; config = c; start_time = now; attempt = 1 }

guard_source-Starts :
    (now : ℕ) (r : Request) (c : Option ServiceConfig) (s : MeshState)
    → Starts now r c (guard_source now r c s).0
unfolding guard_source
guard_source-Starts now r none s = tt
guard_source-Starts now r (some c) s = ground arith

after_admission-IsAnswered :
    (now : ℕ) (world : ℕ → World) (r : Request) (c : Option ServiceConfig)
    (p : Admission × MeshState)
    → Starts now r c p.0
    → IsAnswered c r (after_admission world p)
unfolding after_admission
after_admission-IsAnswered now world r c (refused (gateway_failure status why n), s) h = absurd h
after_admission-IsAnswered now world r none (refused _, s) h = tt
after_admission-IsAnswered now world r (some c) (refused _, s) h = tt
after_admission-IsAnswered now world r none (admitted f, s) h = absurd h
after_admission-IsAnswered now world r (some c) (admitted f, s) h =
    let first : Flight = record { request = r; config = c; start_time = now; attempt = 1 } in
    subst (λ (x : Flight). IsAnswered (some c) r (attempts (max_attempts_of x.config) world x s))
      (sym h)
      (Answers-IsAnswered first _ refl
        (attempts-Answers (max_attempts_of c) world first s (max_attempts-pos c) (omega arith)))

-- Every request is answered, within the fuel that `route_request` is given. A gateway failure names a
-- number of attempts from 1 up to the policy's limit, and exactly 1 where the method and the
-- policy allow no retry; it is not given where the service is unknown.
pub route_request-IsAnswered :
    (now : ℕ) (world : ℕ → World) (r : Request) (s : MeshState)
    → IsAnswered (lookup r.service_id s.services) r (route_request now world r s)
unfolding route_request admit
route_request-IsAnswered now world r s =
    after_admission-IsAnswered now world r (lookup r.service_id s.services) (admit now r s)
      (guard_source-Starts now r (lookup r.service_id s.services) s)
