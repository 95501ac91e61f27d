-- ===== src/Query/Nodes.antt =====
-- findCoveringNodes: the nodes of one segment tree of N leaves that stand for the leaves L to R.
pub mod Cover
use smaran.Prelude.{
  ℕ, zero, suc, ◌+◌, ◌-◌, ◌*◌, ◌/◌, ◌%◌, ◌^◌, ◌&&◌, ◌||◌, Option, some, none, List, [], ◌∷◌, ◌++◌,
}
use smaran.Prelude.{ltb, ◌==◌, if◌then◌else◌}
use mathlib.Core.Option

-- What one round appends to `out`.
unfoldable pub round_nodes : ℕ → ℕ → List ℕ
round_nodes l end =
    (if l % 2 == 0 then l ∷ [] else []) ++ (if end % 2 == 0 then (end - 1) ∷ [] else [])

-- The distance of the float64 values around an integer of 64 bits: it starts at 1 and doubles until 53
-- bits are enough, which is after 11 doublings at most.
unfoldable pub float_unit : ℕ → ℕ → ℕ → ℕ
float_unit zero x unit = unit
float_unit (suc fuel) x unit =
    let wider = float_unit fuel x (2 * unit) in if ltb x (2 ^ 53 * unit) then unit else wider

-- float64(x): the nearest multiple of that distance, of two equally near ones the even one.
unfoldable pub to_float : ℕ → ℕ
unfolding float_unit
to_float x =
    let unit = float_unit 11 x 1 in
    let below = x / unit in
    let rest = x % unit in
    if ltb unit (2 * rest) || (unit == 2 * rest && below % 2 == 1)
    then (below + 1) * unit
    else below * unit

-- The variables of the next round: `l` after `l += 1` on an even number, then (l - 1) / 2 rounded down
-- after the conversion to float64; `r` after `r -= 1` on an odd number, then the same, where the
-- conversion is that of -1 if `end` is 1.
unfoldable pub next_l : ℕ → ℕ
unfolding to_float
next_l l = to_float ((if l % 2 == 0 then l + 1 else l) - 1) / 2

unfoldable pub next_end : ℕ → ℕ
unfolding to_float
next_end end =
    let top = if end % 2 == 0 then end - 1 else end in
    if ltb top 2 then 0 else to_float (top - 2) / 2 + 1

-- The loop of findCoveringNodes on fuel; `none` is the end of the fuel. The code's `r` reaches -1, so
-- the model keeps `end` = r + 1: `l <= r` is `l < end`, and r is odd if `end` is even.
covering_loop : ℕ → ℕ → ℕ → Option (List ℕ)
unfolding round_nodes next_l next_end
covering_loop zero l end = none
covering_loop (suc fuel) l end =
    let rest =
      Option.map (◌++◌ (round_nodes l end)) (covering_loop fuel (next_l l) (next_end end)) in
    if ltb l end then rest else some []

unfoldable pub find_covering_nodes : ℕ → ℕ → ℕ → Option (List ℕ)
unfolding covering_loop
find_covering_nodes n left right =
    let base = n - 1 in covering_loop (right + base + 2) (left + base) (right + base + 1)
