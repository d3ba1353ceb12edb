-- ===== src/Application/Containers/Supervised.antt =====
-- What the supervisor knows against the states of the containers.
use sj_cloud.Prelude.{
  ◌+◌, ◌≡◌, refl, arith, String, Bool, true, false, List, [], ◌∷◌, Option, none, some, Dict, lookup,
  lookup-put, lookup-remove, Result, ok, err, str_eq, count, Bool-cases, inl, inr,
}
use sj_cloud.Application.Containers.{
  Containers, Monitored, running, stopped, get_state, start, stop, restart, tick, tick_from,
  is_crashed, wants_running, recover, container_of,
}

-- the calls that change what the manager and the supervisor hold, with what the outside answers
pub data Call : Type 0 where
  starts : String → String → Option String → Call
  stops : String → Bool → Call
  restarts : Call
  ticks : (String → Bool) → (String → Bool) → Call

abbrev pub after_start : Containers → Result String Containers → Containers
after_start c (ok d) = d
after_start c (err e) = c

abbrev pub call : Call → Containers → Containers
call (starts tenant app files) c = after_start c (start tenant app files c)
call (stops app exists) c = stop app exists c
call restarts c = restart c
call (ticks is_running exists) c = tick is_running exists c

unfoldable pub call_all : List Call → Containers → Containers
call_all [] c = c
call_all (x ∷ rest) c = call_all rest (call x c)

abbrev pub is_some {ℓ} : {A : Type ℓ} → Option A → Bool
is_some none = false
is_some (some a) = true

-- an application is monitored exactly if its desired state is `RUNNING`
abbrev pub IsSupervised : Containers → Type 0
IsSupervised c =
    (app : String) → is_some (lookup app c.monitored_apps) ≡ wants_running (get_state app c)

abbrev monitored : String → String → Monitored
monitored tenant app = record { tenant_id = tenant; container_name = container_of tenant app }

start-IsSupervised :
    (tenant app : String) (files : Option String) (c : Containers)
    → IsSupervised c
    → IsSupervised (after_start c (start tenant app files c))
unfolding start get_state
start-IsSupervised tenant app (some e) c h = h
start-IsSupervised tenant app none c h = λ a.
    rw (lookup-put app a running c.states, lookup-put app a (monitored tenant app) c.monitored_apps)
      (elim (Bool-cases (str_eq app a)) [ inl e ↦ rw e refl | inr e ↦ rw e (h a) ])

stop-IsSupervised :
    (app : String) (exists : Bool) (c : Containers)
    → IsSupervised c
    → IsSupervised (stop app exists c)
unfolding stop get_state
stop-IsSupervised app false c h = h
stop-IsSupervised app true c h = λ a.
    rw (lookup-put app a stopped c.states, lookup-remove app a c.monitored_apps)
      (elim (Bool-cases (str_eq app a)) [ inl e ↦ rw e refl | inr e ↦ rw e (h a) ])

-- the loop changes only the count of recoveries
tick_from-kept :
    (is_running exists : String → Bool) (m : Dict Monitored) (c : Containers)
    → ((tick_from is_running exists m c).states ≡ c.states)
      × ((tick_from is_running exists m c).monitored_apps ≡ c.monitored_apps)
unfolding tick_from
tick_from-kept is_running exists [] c = (refl, refl)
tick_from-kept is_running exists ((app, info) ∷ rest) c =
    elim (Bool-cases (is_crashed is_running c (app, info))) [
      | inr e ↦ rw e (tick_from-kept is_running exists rest c)
      | inl e ↦ elim (Bool-cases (exists app)) [
        | inr f ↦ rw (e, f) (refl, refl)
        | inl f ↦ rw (e, f) (tick_from-kept is_running exists rest (recover true c).0)
      ]
    ]

tick-IsSupervised :
    (is_running exists : String → Bool) (c : Containers)
    → IsSupervised c
    → IsSupervised (tick is_running exists c)
unfolding tick get_state
tick-IsSupervised is_running exists c h =
    λ a. let k = tick_from-kept is_running exists c.monitored_apps c in rw (k.0, k.1) (h a)

call-IsSupervised : (x : Call) (c : Containers) → IsSupervised c → IsSupervised (call x c)
unfolding restart get_state
call-IsSupervised (starts tenant app files) c h = start-IsSupervised tenant app files c h
call-IsSupervised (stops app exists) c h = stop-IsSupervised app exists c h
call-IsSupervised restarts c h = h
call-IsSupervised (ticks is_running exists) c h = tick-IsSupervised is_running exists c h

-- Where exactly the applications whose desired state is `RUNNING` are monitored, this stays so,
-- whatever is started, stopped and restarted and however often the supervisor ticks, in any order,
-- whatever files, directories and Docker answer.
pub call_all-IsSupervised :
    (xs : List Call) (c : Containers) → IsSupervised c → IsSupervised (call_all xs c)
unfolding call_all
call_all-IsSupervised [] c h = h
call_all-IsSupervised (x ∷ xs) c h = call_all-IsSupervised xs (call x c) (call-IsSupervised x c h)

tick_from-count :
    (is_running exists : String → Bool) (m : Dict Monitored) (c : Containers)
    → ((app : String) → exists app ≡ true)
    → (tick_from is_running exists m c).runtime_recovery_total
      ≡ c.runtime_recovery_total + count (is_crashed is_running c) m
unfolding tick_from get_state
tick_from-count is_running exists [] c h = omega arith
tick_from-count is_running exists ((app, info) ∷ rest) c h =
    let n = tick_from-count is_running exists rest (recover true c).0 h in
    elim (Bool-cases (is_crashed is_running c (app, info))) [
      | inr e ↦ rw e (tick_from-count is_running exists rest c h)
      | inl e ↦ rw (e, h app) (omega (arith, n))
    ]

-- Where every application has its directory, a tick adds to the count of recoveries the number of
-- monitored applications whose desired state is `RUNNING` and whose container Docker does not run.
pub tick-count :
    (is_running exists : String → Bool) (c : Containers)
    → ((app : String) → exists app ≡ true)
    → (tick is_running exists c).runtime_recovery_total
      ≡ c.runtime_recovery_total + count (is_crashed is_running c) c.monitored_apps
unfolding tick
tick-count is_running exists c h = tick_from-count is_running exists c.monitored_apps c h
