-- ===== src/Tenant/Lifecycle/Fleet.antt =====
-- The shared metrics, seen from all the machines that write to them.
use sj_cloud.Prelude.{
  ℕ, ◌+◌, ◌-◌, ◌≡◌, refl, String, true, false, List, [], ◌∷◌, ◌++◌, arith, Dict, lookup, put, bump,
  tally, some_of, str_eq, eq_iff, Bool-cases, if◌then◌else◌, subst, sym, count, count-set_at,
  count-append, set_at, set_at_kept, get_elem?, All, Result, ok, err, Option, some, none,
  tally-bump, lookup-put, Option-cases, inl, inr,
}
use sj_cloud.Tenant.Lifecycle.{
  TenantState, creating, provisioning, starting, active, suspended, updating, migrating, restoring,
  archived, failed, deleting, deleted, name, same, valid_transitions, Metrics, no_metrics,
  move_count, update_metrics, LifecycleError, transition_to,
}

-- what may happen to the machines: one is built, for any tenant and in any state, or one, by its
-- number, is asked to change its state
pub data Action : Type 0 where
  build : TenantState → Action
  ask : ℕ → TenantState → Action

-- the states of the machines in the order in which they were built; a tenant may have several
pub record Fleet : Type 0 where
  pub machines : List TenantState
  pub metrics : Metrics

-- a transition of one machine; an error leaves everything as it was
unfoldable pub moved : ℕ → Result LifecycleError (TenantState × Metrics) → Fleet → Fleet
moved id (ok (state, metrics)) f = record {
  machines = set_at id state f.machines;
  metrics = metrics;
}
moved id (err e) f = f

-- the constructor
abbrev pub built : TenantState → Fleet → Fleet
built state f = record f { machines = f.machines ++ (state ∷ []) }

abbrev pub asked : ℕ → TenantState → Option TenantState → Fleet → Fleet
asked id next none f = f
asked id next (some state) f = moved id (transition_to next state f.metrics) f

unfoldable pub act : Action → Fleet → Fleet
act (build state) f = built state f
act (ask id next) f = asked id next (get_elem? f.machines id) f

unfoldable pub act_all : List Action → Fleet → Fleet
act_all [] f = f
act_all (a ∷ rest) f = act_all rest (act a f)

-- The counts of the metrics are those of the machines. No transition leads to `CREATING`, whose
-- count stays 0.
pub record IsCounted (f : Fleet) : Type 0 where
  pub active_counted : f.metrics.tenant_active ≡ count (same active) f.machines
  pub failed_counted : f.metrics.tenant_failed ≡ count (same failed) f.machines
  pub states_counted :
      (s : TenantState)
      → tally (name s) f.metrics.tenant_states
        ≡ (if same creating s then 0 else count (same s) f.machines)

pub tally_nothing : (s : TenantState) → tally (name s) [] ≡ (if same creating s then 0 else 0)
unfolding lookup
tally_nothing s = ground arith

tally-put :
    (k j : String) (n : ℕ) (m : Dict ℕ)
    → tally j (put k n m) ≡ (if str_eq k j then n else tally j m)
tally-put k j n m = ground (arith, lookup-put k j n m)

pub tally-move_count :
    (old next : TenantState) (k : String) (m : Dict ℕ)
    → same old next ≡ false
    → tally k (move_count old next m) ≡ (
        if str_eq (name old) k
        then tally k m - 1
        else (if str_eq (name next) k then tally k m + 1 else tally k m))
unfolding move_count
tally-move_count old next k m h = ground (
  arith,
  eq_iff (name old) k,
  eq_iff (name next) k,
  eq_iff (name old) (name next),
  tally-bump (name next) k m,
  tally-bump (name next) (name old) m,
  tally-put (name old) k (tally (name old) (bump (name next) m) - 1) (bump (name next) m),
)

creating-unreachable :
    (state : TenantState) → some_of (same creating) (valid_transitions state) ≡ false
creating-unreachable creating = refl
creating-unreachable provisioning = refl
creating-unreachable starting = refl
creating-unreachable active = refl
creating-unreachable suspended = refl
creating-unreachable updating = refl
creating-unreachable migrating = refl
creating-unreachable restoring = refl
creating-unreachable archived = refl
creating-unreachable failed = refl
creating-unreachable deleting = refl
creating-unreachable deleted = refl

-- A machine that is asked for a state keeps its own, refuses, or moves to the state, which is a
-- new one and not `CREATING`.
pub data Moves (state next : TenantState) (m : Metrics) : Type 0 where
  stays : transition_to next state m ≡ ok (state, m) → Moves state next m
  refuses :
      transition_to next state m ≡ err (record { from = state; to = next }) → Moves state next m
  moves :
      same state next ≡ false
      → some_of (same next) (valid_transitions state) ≡ true
      → transition_to next state m
        ≡ ok (next, update_metrics state next (record m { tenant_events = m.tenant_events + 1 }))
      → Moves state next m

pub transition_to-Moves : (state next : TenantState) (m : Metrics) → Moves state next m
unfolding transition_to
transition_to-Moves state next m = elim (Bool-cases (same state next)) [
  | inl e ↦ stays (rw e refl)
  | inr e ↦ elim (Bool-cases (some_of (same next) (valid_transitions state))) [
    | inl h ↦ moves e h (rw (e, h) refl)
    | inr h ↦ refuses (rw (e, h) refl)
  ]
]

moves-not_creating :
    (state next : TenantState)
    → some_of (same next) (valid_transitions state) ≡ true
    → same creating next ≡ false
moves-not_creating state next h = elim (Bool-cases (same creating next)) [
  | inl e ↦
      let there =
        subst (λ t. some_of (λ s. str_eq t (name s)) (valid_transitions state) ≡ true)
          (sym ((eq_iff "CREATING" (name next)).0 e)) h in
      cc (there, creating-unreachable state)
  | inr e ↦ e
]

move-IsCounted :
    (id : ℕ) (old next : TenantState) (f : Fleet)
    → get_elem? f.machines id ≡ some old
    → same old next ≡ false
    → same creating next ≡ false
    → IsCounted f
    → IsCounted (record {
      machines = set_at id next f.machines;
      metrics =
          update_metrics old next
            (record f.metrics { tenant_events = f.metrics.tenant_events + 1 });
    })
unfolding update_metrics
move-IsCounted id old next f there new h c = record {
  active_counted = ground (
    arith,
    count-set_at (same active) id old next f.machines there,
    eq_iff "ACTIVE" (name old),
    eq_iff (name old) "ACTIVE",
    eq_iff "ACTIVE" (name next),
    eq_iff (name next) "ACTIVE",
    eq_iff (name old) (name next),
  );
  failed_counted = ground (
    arith,
    count-set_at (same failed) id old next f.machines there,
    eq_iff "FAILED" (name old),
    eq_iff (name old) "FAILED",
    eq_iff "FAILED" (name next),
    eq_iff (name next) "FAILED",
    eq_iff (name old) (name next),
  );
  states_counted = λ s. ground (
    arith,
    c.states_counted s,
    count-set_at (same s) id old next f.machines there,
    tally-move_count old next (name s) f.metrics.tenant_states new,
    eq_iff "CREATING" (name s),
    eq_iff "CREATING" (name next),
    eq_iff (name s) (name old),
    eq_iff (name old) (name s),
    eq_iff (name s) (name next),
    eq_iff (name next) (name s),
    eq_iff (name old) (name next),
  );
}

-- a machine that is built without a state starts in `CREATING`
abbrev pub IsFresh : Action → Type 0
IsFresh (build state) = state ≡ creating
IsFresh (ask id next) = Unit

built-IsCounted :
    (state : TenantState) (f : Fleet) → state ≡ creating → IsCounted f → IsCounted (built state f)
built-IsCounted state f e c = rw e (record {
  active_counted =
      ground (arith, count-append (same active) f.machines (creating ∷ []), c.active_counted);
  failed_counted =
      ground (arith, count-append (same failed) f.machines (creating ∷ []), c.failed_counted);
  states_counted = λ s. ground (
    arith,
    count-append (same s) f.machines (creating ∷ []),
    eq_iff (name s) "CREATING",
    eq_iff "CREATING" (name s),
    c.states_counted s,
  );
})

act-IsCounted : (a : Action) (f : Fleet) → IsFresh a → IsCounted f → IsCounted (act a f)
unfolding act moved
act-IsCounted (build state) f e c = built-IsCounted state f e c
act-IsCounted (ask id next) f t c = elim (Option-cases (get_elem? f.machines id)) [
  | inl e ↦ rw (e, asked) c
  | inr (s, e) ↦ elim (transition_to-Moves s next f.metrics) [
    | stays k ↦ rw (e, asked, k, moved, set_at_kept id s f.machines e) c
    | refuses k ↦ rw (e, asked, k, moved) c
    | moves n h k ↦
        rw (e, asked, k, moved) (move-IsCounted id s next f e n (moves-not_creating s next h) c)
  ]
]

from-IsCounted :
    (actions : List Action) (f : Fleet)
    → All IsFresh actions
    → IsCounted f
    → IsCounted (act_all actions f)
unfolding act_all
from-IsCounted [] f t c = c
from-IsCounted (a ∷ rest) f t c = from-IsCounted rest (act a f) t.1 (act-IsCounted a f t.0 c)

-- the module when it is loaded
abbrev pub no_fleet : Fleet
no_fleet = record { machines = []; metrics = no_metrics }

-- Where every machine is built in `CREATING`, however many and whatever states they are asked for, in
-- any order, the shared metrics count the machines exactly: those that are active, those that have
-- failed, and those in each state but `CREATING`, which is never counted.
pub act_all-IsCounted :
    (actions : List Action) → All IsFresh actions → IsCounted (act_all actions no_fleet)
act_all-IsCounted actions t =
    from-IsCounted actions no_fleet t (record {
      active_counted = refl;
      failed_counted = refl;
      states_counted = λ s. tally_nothing s;
    })
