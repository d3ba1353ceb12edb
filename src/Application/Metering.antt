-- ===== src/Application/Metering.antt =====
-- The machines of registered applications, and the metrics that they share.
use sj_cloud.Prelude.{
  ◌+◌, ◌≡◌, refl, String, Bool, true, false, List, [], ◌∷◌, arith, Dict, lookup, put, population,
  population-put, population-put_new, lookup-put_self, ap, sym, ◌∙◌, str_eq, eq_iff, if◌then◌else◌,
  Result, ok, err, Option, some, none, Option-cases, ◌⊎◌, inl, inr, Bool-cases,
}
use sj_cloud.Application.Deployment.{
  DeploymentState, created, building, built, deploying, verifying, active, scaling, updating,
  failed, rollback, archived, name, same, is_valid_transition, track, plus_if, is_active, Platform,
  persisted, DeploymentError, transition_to,
}

-- an application is registered, or a machine is built from the status of a registered one and asked
-- for a state
pub data Action : Type 0 where
  register : String → Action
  ask : String → DeploymentState → Action

abbrev pub registered : String → Option (Option DeploymentState) → Platform → Platform
registered id none p = record p { statuses = put id (some created) p.statuses }
registered id (some _) p = p

abbrev pub after : Result DeploymentError (DeploymentState × Platform) → Platform → Platform
after (ok (state, q)) p = q
after (err e) p = p

abbrev pub asked : String → DeploymentState → Option (Option DeploymentState) → Platform → Platform
asked id to none p = p
asked id to (some none) p = after (transition_to id to (some failed) p) p
asked id to (some (some state)) p = after (transition_to id to (some state) p) p

unfoldable pub act : Action → Platform → Platform
act (register id) p = registered id (lookup id p.statuses) p
act (ask id to) p = asked id to (lookup id p.statuses) p

unfoldable pub act_all : List Action → Platform → Platform
act_all [] p = p
act_all (a ∷ rest) p = act_all rest (act a p)

-- the test for `ACTIVE`
abbrev pub serves : DeploymentState → Bool
serves s = same s active

-- the registered status agrees with the state of a machine that is built from it, which has a
-- default that is not `ACTIVE`
abbrev pub Agrees : Option DeploymentState → DeploymentState → Type 0
Agrees r s = (r ≡ some s) ⊎ ((r ≡ none) × (serves s ≡ false))

-- the count of active applications is that of the registry
abbrev pub IsMetered : Platform → Type 0
IsMetered p = p.metrics.application_active ≡ population is_active p.statuses

-- no save of a transition is to fail
abbrev pub IsSaving : Platform → Type 0
IsSaving p = p.faults ≡ []

abbrev pub IsAccounted : Platform → Type 0
IsAccounted p = IsSaving p × IsMetered p

-- the state that a text names
state_of : String → Option DeploymentState
state_of t =
    if str_eq t "CREATED"
    then some created
    else if str_eq t "BUILDING"
    then some building
    else if str_eq t "BUILT"
    then some built
    else if str_eq t "DEPLOYING"
    then some deploying
    else if str_eq t "VERIFYING"
    then some verifying
    else if str_eq t "ACTIVE"
    then some active
    else if str_eq t "SCALING"
    then some scaling
    else if str_eq t "UPDATING"
    then some updating
    else if str_eq t "FAILED"
    then some failed
    else if str_eq t "ROLLBACK"
    then some rollback
    else some archived

state_of-name : (s : DeploymentState) → state_of (name s) ≡ some s
unfolding state_of
state_of-name created = refl
state_of-name building = refl
state_of-name built = refl
state_of-name deploying = refl
state_of-name verifying = refl
state_of-name active = refl
state_of-name scaling = refl
state_of-name updating = refl
state_of-name failed = refl
state_of-name rollback = refl
state_of-name archived = refl

same-eq : (a b : DeploymentState) → same a b ≡ true → a ≡ b
same-eq a b h =
    let q : state_of (name a) ≡ state_of (name b) = ap state_of ((eq_iff (name a) (name b)).0 h) in
    cc (q, state_of-name a, state_of-name b)

pub lookup-persisted :
    (id : String) (r : Option DeploymentState) (to : DeploymentState)
    (m : Dict (Option DeploymentState))
    → lookup id m ≡ some r
    → lookup id (persisted false id to (some r) m) ≡ some (some to)
lookup-persisted id none to m h = lookup-put_self id (some to) m
lookup-persisted id (some old) to m h = elim (Bool-cases (same old to)) [
  | inl e ↦ rw e (h ∙ ap (λ s. some (some s)) (same-eq old to e))
  | inr e ↦ rw e (lookup-put_self id (some to) m)
]

pub agrees-active :
    (r : Option DeploymentState) (s : DeploymentState) → Agrees r s → is_active r ≡ serves s
agrees-active r s (inl e) = rw e refl
agrees-active r s (inr (e, n)) = rw e (sym n)

put-same :
    (id : String) (r : Option DeploymentState) (to : DeploymentState)
    (m : Dict (Option DeploymentState))
    → lookup id m ≡ some r
    → population is_active (persisted false id to (some r) m) + plus_if (is_active r) 0
      ≡ population is_active m + plus_if (serves to) 0
put-same id none to m h = ground (arith, population-put is_active id none (some to) m h)
put-same id (some old) to m h = ground (
  arith,
  population-put is_active id (some old) (some to) m h,
  eq_iff (name old) (name to),
  eq_iff (name old) "ACTIVE",
  eq_iff (name to) "ACTIVE",
)

track-IsMetered :
    (id : String) (r : Option DeploymentState) (old to : DeploymentState) (p : Platform)
    → lookup id p.statuses ≡ some r
    → is_active r ≡ serves old
    → IsMetered p
    → (track (some old) to p.metrics).application_active
      ≡ population is_active (persisted false id to (some r) p.statuses)
unfolding track
track-IsMetered id r old to p h a m = ground (arith, a, m, put-same id r to p.statuses h)

-- what an accepted transition leaves where no save fails
abbrev pub written :
    String → Option DeploymentState → DeploymentState → DeploymentState → Platform → Platform
written id r old to p = record {
  statuses = persisted false id to (some r) p.statuses;
  metrics = track (some old) to p.metrics;
  faults = [];
}

pub transition_to-written :
    (id : String) (r : Option DeploymentState) (old to : DeploymentState) (p : Platform)
    → lookup id p.statuses ≡ some r
    → IsSaving p
    → is_valid_transition (some old) to ≡ true
    → transition_to id to (some old) p ≡ ok (to, written id r old to p)
unfolding transition_to
transition_to-written id r old to p h s v = rw (v, h, s) refl

-- For a machine that is built from the status of a registered application, where the count of
-- active applications is that of the registry and saving does not fail: a transition that is
-- accepted writes its state to the registry and keeps the count that of the registry; one that is
-- refused throws.
pub transition_to-IsAccounted :
    (id : String) (r : Option DeploymentState) (old to : DeploymentState) (p : Platform)
    → lookup id p.statuses ≡ some r
    → Agrees r old
    → IsAccounted p
    → (transition_to id to (some old) p ≡ err (record { from = some old; to = to }))
      ⊎ ((q : Platform) × (transition_to id to (some old) p ≡ ok (to, q))
          × (lookup id q.statuses ≡ some (some to))
          × IsAccounted q)
unfolding transition_to
transition_to-IsAccounted id r old to p h a m =
    elim (Bool-cases (is_valid_transition (some old) to)) [
      | inl v ↦ inr (
        written id r old to p,
        transition_to-written id r old to p h m.0 v,
        lookup-persisted id r to p.statuses h,
        (refl, track-IsMetered id r old to p h (agrees-active r old a) m.1),
      )
      | inr v ↦ inl (rw v refl)
    ]

asked-IsAccounted :
    (id : String) (r : Option DeploymentState) (old to : DeploymentState) (p : Platform)
    → lookup id p.statuses ≡ some r
    → Agrees r old
    → IsAccounted p
    → IsAccounted (after (transition_to id to (some old) p) p)
asked-IsAccounted id r old to p h a m = elim (transition_to-IsAccounted id r old to p h a m) [
  | inl k ↦ rw (k, after) m
  | inr (q, k, l, n) ↦ rw (k, after) n
]

act-IsAccounted : (a : Action) (p : Platform) → IsAccounted p → IsAccounted (act a p)
unfolding act
act-IsAccounted (register id) p m = elim (Option-cases (lookup id p.statuses)) [
  | inl e ↦
      rw (e, registered)
        (m.0, ground (arith, m.1, population-put_new is_active id (some created) p.statuses e))
  | inr (s, e) ↦ rw (e, registered) m
]
act-IsAccounted (ask id to) p m = elim (Option-cases (lookup id p.statuses)) [
  | inl e ↦ rw (e, asked) m
  | inr (none, e) ↦ rw (e, asked) (asked-IsAccounted id none failed to p e (inr (refl, refl)) m)
  | inr (some s, e) ↦ rw (e, asked) (asked-IsAccounted id (some s) s to p e (inl refl) m)
]

-- Where no save of a transition fails and the count of active applications is the number of those
-- with the status `ACTIVE`, this stays so, whatever applications are registered and whatever states
-- they are asked for, in any order.
pub act_all-IsAccounted :
    (actions : List Action) (p : Platform) → IsAccounted p → IsAccounted (act_all actions p)
unfolding act_all
act_all-IsAccounted [] p m = m
act_all-IsAccounted (a ∷ rest) p m = act_all-IsAccounted rest (act a p) (act-IsAccounted a p m)
