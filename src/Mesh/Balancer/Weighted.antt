-- ===== src/Mesh/Balancer/Weighted.antt =====
-- The draws of the weighted strategy.
use sj_cloud.Prelude.{ℕ, ◌+◌, ◌-◌, ◌<◌, ◌≤◌, ◌≡◌, ap, String, List, [], ◌∷◌, ◌++◌, arith, ok}
use sj_cloud.Mesh.Balancer.{Target, total_weight, pick, select_weighted}

pick_segment :
    (before : List Target) (t : Target) (after : List Target) (draw : ℕ) (last : String)
    → total_weight before < draw
    → draw ≤ total_weight before + t.weight
    → pick draw (before ++ t ∷ after) last ≡ t.url
unfolding pick total_weight
pick_segment [] t after draw last above below = ground arith
pick_segment (b ∷ bs) t after draw last above below =
    ground (arith, pick_segment bs t after (draw - b.weight) b.url)

-- A draw that falls into the segment of an entry, past the weights before it and within its own,
-- selects that entry: an entry of weight `w` owns `w` of the whole draws.
pub select_weighted_segment :
    (before : List Target) (t : Target) (after : List Target) (draw : ℕ)
    → total_weight before < draw
    → draw ≤ total_weight before + t.weight
    → select_weighted draw (before ++ t ∷ after) ≡ ok t.url
unfolding select_weighted
select_weighted_segment [] t after draw above below =
    ap ok (pick_segment [] t after draw t.url above below)
select_weighted_segment (b ∷ bs) t after draw above below =
    ap ok (pick_segment (b ∷ bs) t after draw b.url above below)
