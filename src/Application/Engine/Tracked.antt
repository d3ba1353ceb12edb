-- ===== src/Application/Engine/Tracked.antt =====
-- An engine whose machine agrees with the registry.
use sj_cloud.Prelude.{
  ◌≡◌, refl, arith, String, false, Option, none, some, inl, inr, lookup, sym, subst, population-put,
  lookup-put_self,
}
use sj_cloud.Application.Deployment.{DeploymentState, is_active}
use sj_cloud.Application.Metering.{
  IsAccounted, Agrees, agrees-active, serves, transition_to-IsAccounted,
}
use sj_cloud.Application.Engine.{
  World, Config, Engine, Outcome, ask, moved, get_application, saved, save_application, save_copy,
  ◌before◌, status_or,
}
use sj_cloud.Application.Engine.Steps.{config_of-some}

-- the registered status of the application agrees with the machine's state, the count of active
-- applications is that of the registry, saving does not fail, and the copy is of this application
pub record IsTracked (id : String) (g : Engine) : Type 0 where
  pub registered :
      (r : Option DeploymentState) × (lookup id g.world.platform.statuses ≡ some r)
      × Agrees r g.state
  pub metered : IsAccounted g.world.platform
  pub owned : g.config.application_id ≡ id

pub status_or-Agrees :
    (d : DeploymentState) (s : Option DeploymentState) → serves d ≡ false → Agrees s (status_or d s)
status_or-Agrees d none n = inr (refl, n)
status_or-Agrees d (some s) n = inl refl

-- a change of the rest of the world keeps this
pub IsTracked-world :
    (id : String) (g : Engine) (w : World)
    → w.platform ≡ g.world.platform
    → IsTracked id g
    → IsTracked id (record g { world = w })
IsTracked-world id g w q t = record {
  registered = (t.registered.0, rw q t.registered.1, t.registered.2);
  metered = subst (λ p. IsAccounted p) (sym q) t.metered;
  owned = t.owned;
}

pub ask-IsTracked :
    (id : String) (to : DeploymentState) (g : Engine)
    → IsTracked id g
    → IsTracked id (ask id to g).0
unfolding ask
ask-IsTracked id to g t =
    elim (transition_to-IsAccounted id t.registered.0 g.state to g.world.platform t.registered.1
      t.registered.2 t.metered) [
        | inl k ↦ rw (k, moved) t
        | inr (p, k, l, n) ↦
            rw (k, moved)
              (record { registered = (some to, l, inl refl); metered = n; owned = t.owned })
      ]

-- saving a copy whose status is active where the machine's state is, and only there
pub save_copy-IsMetered :
    (id : String) (e : Option String) (g : Engine)
    → is_active g.config.status ≡ serves g.state
    → IsTracked id g
    → IsAccounted (save_copy e g).0.world.platform
unfolding save_copy save_application saved
save_copy-IsMetered id (some e) g q t = t.metered
save_copy-IsMetered id none g q t =
    let r = t.registered in
    let n = population-put is_active id r.0 g.config.status g.world.platform.statuses r.1 in
    (t.metered.0, rw t.owned (ground (arith, n, q, agrees-active r.0 g.state r.2, t.metered.1)))

-- saving a copy that bears the machine's state
pub save_copy-IsTracked :
    (id : String) (e : Option String) (g : Engine)
    → g.config.status ≡ some g.state
    → IsTracked id g
    → IsTracked id (save_copy e g).0
unfolding save_copy save_application saved
save_copy-IsTracked id (some e) g q t = t
save_copy-IsTracked id none g q t = record {
  registered = (
    some g.state,
    rw (t.owned, q) (lookup-put_self id (some g.state) g.world.platform.statuses),
    inl refl,
  );
  metered = save_copy-IsMetered id none g (rw q refl) t;
  owned = t.owned;
}

-- the first call of a sequence, and the rest
pub before-IsTracked :
    (id : String) (x : Outcome) (f : Engine → Outcome)
    → IsTracked id x.0
    → ((g : Engine) → IsTracked id g → IsTracked id (f g).0)
    → IsTracked id (x before f).0
before-IsTracked id (g, none) f t h = h g t
before-IsTracked id (g, some e) f t h = t

pub ask-before-IsTracked :
    (id : String) (to : DeploymentState) (g : Engine) (f : Engine → Outcome)
    → IsTracked id g
    → ((h : Engine) → h.state ≡ to → IsTracked id h → IsTracked id (f h).0)
    → IsTracked id (ask id to g before f).0
unfolding ask
ask-before-IsTracked id to g f t k =
    elim (transition_to-IsAccounted id t.registered.0 g.state to g.world.platform t.registered.1
      t.registered.2 t.metered) [
        | inl e ↦ rw (e, moved) t
        | inr (p, e, l, n) ↦
            rw (e, moved)
              (k (record g { state = to; world = record g.world { platform = p } }) refl
                (record { registered = (some to, l, inl refl); metered = n; owned = t.owned }))
      ]

-- a call, a transition and the rest
pub ask_after-IsTracked :
    (id : String) (to : DeploymentState) (x : Outcome) (f : Engine → Outcome)
    → IsTracked id x.0
    → ((h : Engine) → h.state ≡ to → IsTracked id h → IsTracked id (f h).0)
    → IsTracked id (x before ask id to before f).0
ask_after-IsTracked id to (g, none) f t k = ask-before-IsTracked id to g f t k
ask_after-IsTracked id to (g, some e) f t k = t

-- an engine that is built from a copy that was just read, with a default that is not active
pub start-IsTracked :
    (id : String) (d : DeploymentState) (c : Config) (w : World)
    → serves d ≡ false
    → get_application id w ≡ some c
    → IsAccounted w.platform
    → IsTracked id (record { state = status_or d c.status; config = c; world = w })
unfolding get_application
start-IsTracked id d c w n h m =
    let k = config_of-some id (lookup id w.platform.statuses) (lookup id w.sources) c h in
    record { registered = (c.status, k.1, status_or-Agrees d c.status n); metered = m; owned = k.0 }
