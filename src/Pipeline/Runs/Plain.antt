-- ===== src/Pipeline/Runs/Plain.antt =====
-- The machines that were built in a final state, which no transition moves.
use sj_cloud.Prelude.{
  zero, suc, ℕ, ◌≡◌, refl, Bool, true, not, ◌&&◌, ◌||◌, List, [], ◌∷◌, arith, set_at, get_elem?,
  All, some_of, some,
}
use sj_cloud.Pipeline.Machine.{
  PipelineState, queued, running, success, failed, cancelled, same, valid_transitions,
}
use sj_cloud.Pipeline.Runs.{Machine}

-- a machine that was built in a final state is still in it, and one that was built running is not
-- queued
abbrev pub is_plain : Machine → Bool
is_plain m =
    same queued m.initial
    || (same m.initial m.state || (same running m.initial && not (same queued m.state)))

abbrev pub IsPlain : Machine → Type 0
IsPlain m = is_plain m ≡ true

pub All-get_elem? :
    (i : ℕ) (m : Machine) (l : List Machine) → All IsPlain l → get_elem? l i ≡ some m → IsPlain m
All-get_elem? i m [] a h = ground arith
All-get_elem? zero m (x ∷ l) a h = ground (arith, a.0, h)
All-get_elem? (suc i) m (x ∷ l) a h = All-get_elem? i m l a.1 h

pub All-set_at :
    (i : ℕ) (m : Machine) (l : List Machine)
    → All IsPlain l
    → IsPlain m
    → All IsPlain (set_at i m l)
All-set_at i m [] a h = tt
All-set_at zero m (x ∷ l) a h = (h, a.1)
All-set_at (suc i) m (x ∷ l) a h = (a.0, All-set_at i m l a.1 h)

-- a machine that moves was not built in a final state
pub moves-plain :
    (i s next : PipelineState)
    → is_plain (record { initial = i; state = s }) ≡ true
    → some_of (same next) (valid_transitions s) ≡ true
    → same queued i || (same running i && same running s) ≡ true
moves-plain queued s next p h = refl
moves-plain running running next p h = refl
moves-plain running queued next p h = ground (arith, p, h)
moves-plain running success next p h = ground (arith, p, h)
moves-plain running failed next p h = ground (arith, p, h)
moves-plain running cancelled next p h = ground (arith, p, h)
moves-plain success queued next p h = ground (arith, p, h)
moves-plain success running next p h = ground (arith, p, h)
moves-plain success success next p h = ground (arith, p, h)
moves-plain success failed next p h = ground (arith, p, h)
moves-plain success cancelled next p h = ground (arith, p, h)
moves-plain failed queued next p h = ground (arith, p, h)
moves-plain failed running next p h = ground (arith, p, h)
moves-plain failed success next p h = ground (arith, p, h)
moves-plain failed failed next p h = ground (arith, p, h)
moves-plain failed cancelled next p h = ground (arith, p, h)
moves-plain cancelled queued next p h = ground (arith, p, h)
moves-plain cancelled running next p h = ground (arith, p, h)
moves-plain cancelled success next p h = ground (arith, p, h)
moves-plain cancelled failed next p h = ground (arith, p, h)
moves-plain cancelled cancelled next p h = ground (arith, p, h)

pub moved-plain :
    (i s next : PipelineState)
    → same queued i || (same running i && same running s) ≡ true
    → some_of (same next) (valid_transitions s) ≡ true
    → is_plain (record { initial = i; state = next }) ≡ true
moved-plain queued s next p h = refl
moved-plain running running queued p h = ground (arith, h)
moved-plain running running running p h = refl
moved-plain running running success p h = refl
moved-plain running running failed p h = refl
moved-plain running running cancelled p h = refl
moved-plain running queued next p h = ground (arith, p)
moved-plain running success next p h = ground (arith, p)
moved-plain running failed next p h = ground (arith, p)
moved-plain running cancelled next p h = ground (arith, p)
moved-plain success s next p h = ground (arith, p)
moved-plain failed s next p h = ground (arith, p)
moved-plain cancelled s next p h = ground (arith, p)
