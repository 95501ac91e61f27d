-- ===== src/Query/Nodes/Cover.antt =====
-- The nodes that findCoveringNodes picks stand for each leaf of the range once, and for no other.
use smaran.Prelude.{ℕ, zero, suc, ◌+◌, ◌-◌, ◌*◌, ◌%◌, ◌/◌, ◌^◌, ◌≤◌, ◌<◌, ◌≡◌, arith}
use smaran.Prelude.{true, refl, some, List, [], ◌∷◌, ◌++◌, ◌&&◌}
use smaran.Prelude.{ltb, leb, ◌==◌, if◌then◌else◌, All, Bool-cases, inl, inr}
use smaran.Node.{parent_of}
use smaran.Node.Under.{hits, hits-append, hits-parent_of, under_half}
use smaran.Query.Nodes.{
  round_nodes, to_float, float_unit, next_l, next_end, covering_loop, find_covering_nodes,
}

All-append :
    (m : ℕ) (is js : List ℕ)
    → All (λ i. i < m) is
    → All (λ i. i < m) js
    → All (λ i. i < m) (is ++ js)
All-append m [] js h k = k
All-append m (i ∷ is) js h k = (h.0, All-append m is js h.1 k)

All-weaken : (m n : ℕ) (is : List ℕ) → m ≤ n → All (λ i. i < m) is → All (λ i. i < n) is
All-weaken m n [] le h = tt
All-weaken m n (i ∷ is) le h = (omega arith, All-weaken m n is le h.1)

round_below : (l end : ℕ) → l < end → All (λ i. i < end) (round_nodes l end)
unfolding round_nodes
round_below l end h = ground arith

round_hits :
    (l end x : ℕ)
    → l < end
    → x ≤ 2 * l
    → hits x (round_nodes l end)
      ≡ (if l % 2 == 0 && x == l then 1 else 0) + (if end % 2 == 0 && x + 1 == end then 1 else 0)
unfolding round_nodes hits
round_hits l end x h k = ground (arith, under_half l x, under_half (end - 1) x)

-- An integer below 2 ^ 53 is its own float64.
to_float-exact : (x : ℕ) → x < 2 ^ 53 → to_float x ≡ x
unfolding to_float float_unit
to_float-exact x h = let e : ltb x (2 ^ 53 * 1) ≡ true = ground arith in rw e (ground arith)

abbrev exact_l : ℕ → ℕ
exact_l l = ((if l % 2 == 0 then l + 1 else l) - 1) / 2

abbrev exact_end : ℕ → ℕ
exact_end end = (if end % 2 == 0 then end - 1 else end) / 2

next_l-exact : (l : ℕ) → l < 2 ^ 53 → next_l l ≡ exact_l l
unfolding next_l
next_l-exact l h =
    let e = to_float-exact ((if l % 2 == 0 then l + 1 else l) - 1) (ground arith) in rw e refl

next_end-exact : (end : ℕ) → end ≤ 2 ^ 53 → next_end end ≡ exact_end end
unfolding next_end
next_end-exact end h =
    let e = to_float-exact ((if end % 2 == 0 then end - 1 else end) - 2) (ground arith) in
    rw e (ground arith)

module _ (l end x : ℕ) (small : end ≤ 2 ^ 53) (lt : l < end) (h : end ≤ 2 * x + 2)
    (k : x ≤ 2 * l) where
  next_bounds :
      (next_end end < end)
      × (next_end end ≤ 2 * parent_of x + 2)
      × (parent_of x ≤ 2 * next_l l)
      × (next_end end ≤ x)
  unfolding parent_of
  next_bounds =
      rw (next_end-exact end small, next_l-exact l (omega arith))
        (ground arith, ground arith, ground arith, ground arith)

  next_count :
      (if l % 2 == 0 && x == l then 1 else 0)
        + (if end % 2 == 0 && x + 1 == end then 1 else 0)
        + (if leb (next_l l) (parent_of x) && ltb (parent_of x) (next_end end) then 1 else 0)
      ≡ (if leb l x && ltb x end then 1 else 0)
  unfolding parent_of
  next_count = rw (next_end-exact end small, next_l-exact l (omega arith)) (ground arith)

-- The loop ends, picks nodes below `end`, and one level up it goes on for the parent of `x`.
covering_loop_lem :
    (fuel l end x : ℕ)
    → end < fuel
    → end ≤ 2 ^ 53
    → end ≤ 2 * x + 2
    → x ≤ 2 * l
    → (out : List ℕ) × (covering_loop fuel l end ≡ some out)
      × All (λ i. i < end) out
      × (hits x out ≡ (if leb l x && ltb x end then 1 else 0))
unfolding covering_loop
covering_loop_lem zero l end x f small h k = absurd (omega arith)
covering_loop_lem (suc fuel) l end x f small h k = elim (Bool-cases (ltb l end)) [
  | inr e ↦ ([], rw e, tt, unfold hits in ground arith)
  | inl e ↦
      let lt : l < end = ground arith in
      let (down, n1, n2, n3) = next_bounds l end x small lt h k in
      let (out, run, below, count) =
        covering_loop_lem fuel (next_l l) (next_end end) (parent_of x) (omega arith) (omega arith)
          n1 n2 in
      (
        round_nodes l end ++ out,
        rw (e, run),
        All-append end (round_nodes l end) out (round_below l end lt)
            (All-weaken (next_end end) end out (omega arith) below),
        omega (
          arith,
          hits-append x (round_nodes l end) out,
          round_hits l end x lt k,
          hits-parent_of x out (All-weaken (next_end end) x out n3 below),
          count,
          next_count l end x small lt h k,
        ),
      )
]

shift_tests :
    (n left right j : ℕ)
    → (leb (left + n) (n + j) && ltb (n + j) (right + n + 1)) ≡ (leb left j && leb j right)
shift_tests n left right j = ground arith

-- For leaves `left` to `right` of a tree of at most 2 ^ 52 leaves findCoveringNodes ends without an error, and
-- from the leaf at every offset `j` exactly one picked node is met on the way to the root if `j` lies
-- between `left` and `right`, and none otherwise. It holds for every such number, also where the tree is
-- not a perfect one.
pub find_covering_nodes-exact :
    (n left right j : ℕ)
    → n ≤ 2 ^ 52
    → right < n
    → j < n
    → (out : List ℕ) × (find_covering_nodes n left right ≡ some out)
      × (hits (n - 1 + j) out ≡ (if leb left j && leb j right then 1 else 0))
unfolding find_covering_nodes
find_covering_nodes-exact n left right j small hr hj =
    let (out, run, below, count) =
      covering_loop_lem (right + (n - 1) + 2) (left + (n - 1)) (right + (n - 1) + 1) (n - 1 + j)
        (omega arith) (omega arith) (omega arith) (omega arith) in
    (out, run, rw (← shift_tests (n - 1) left right j) count)
