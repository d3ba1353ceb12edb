-- ===== src/Tenant/Lifecycle/Final.antt =====
-- The state that a tenant does not leave.
use sj_cloud.Prelude.{
  ℕ, ◌≡◌, refl, false, List, [], ◌∷◌, arith, get_elem?, get_elem?-set_at, get_elem?-append,
  set_at_kept, some_of, some, Option-cases, inl, inr, ap, sym,
}
use sj_cloud.Tenant.Lifecycle.{TenantState, deleted, same, valid_transitions}
use sj_cloud.Tenant.Lifecycle.Fleet.{
  Action, build, ask, Fleet, asked, moved, act, act_all, stays, refuses, moves, transition_to-Moves,
}

deleted-final :
    (s next : TenantState) → s ≡ deleted → some_of (same next) (valid_transitions s) ≡ false
deleted-final s next q = rw q refl

act-deleted :
    (a : Action) (id : ℕ) (f : Fleet)
    → get_elem? f.machines id ≡ some deleted
    → get_elem? (act a f).machines id ≡ some deleted
unfolding act moved
act-deleted (build state) id f h = get_elem?-append id deleted f.machines (state ∷ []) h
act-deleted (ask j next) id f h = elim (Option-cases (get_elem? f.machines j)) [
  | inl e ↦ rw (e, asked) h
  | inr (s, e) ↦ elim (transition_to-Moves s next f.metrics) [
    | stays k ↦ rw (e, asked, k, moved, set_at_kept j s f.machines e) h
    | refuses k ↦ rw (e, asked, k, moved) h
    | moves n l k ↦ elim (get_elem?-set_at id j deleted next f.machines h) [
      | inr kept ↦ rw (e, asked, k, moved) kept
      | inl q ↦
          let d = ap (λ i. get_elem? f.machines i) (sym q) in
          ground (arith, deleted-final s next (ground (arith, e, d, h)), l)
    ]
  ]
]

-- A machine that is deleted stays so, whatever is asked of the machines after that.
pub act_all-deleted :
    (actions : List Action) (id : ℕ) (f : Fleet)
    → get_elem? f.machines id ≡ some deleted
    → get_elem? (act_all actions f).machines id ≡ some deleted
unfolding act_all
act_all-deleted [] id f h = h
act_all-deleted (a ∷ rest) id f h = act_all-deleted rest id (act a f) (act-deleted a id f h)
