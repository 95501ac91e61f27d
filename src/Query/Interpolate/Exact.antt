-- ===== src/Query/Interpolate/Exact.antt =====
-- The nodes that are opened for a commitment stand for the versions of its range, and for no other.
use smaran.Prelude.{ℕ, ◌+◌, ◌-◌, ◌*◌, ◌/◌, ◌%◌, ◌^◌, ◌≤◌, ◌<◌, ◌≡◌, ap, sym, ◌∙◌, arith, some, List}
use smaran.Prelude.{leb, ◌&&◌}
use native.Mathlib.Nat.{div-add-mod', mod-lt, div-eq_of_lt-le, mul-le-mul_right}
use smaran.Node.Under.{hits}
use smaran.Query.Geometry.{batch_size, leaf_size, leaf_size_pos, leaves, batch_size_leaves}
use smaran.Query.Nodes.{find_covering_nodes}
use smaran.Query.Nodes.Cover.{find_covering_nodes-exact}
use smaran.Query.Ranges.{BlockRange}
use smaran.Query.Ranges.Step.{within}
use smaran.Query.Interpolate.{range_nodes}

-- The range of a commitment lies in its tree, and starts and ends with leaves of it.
pub record Fits (layer idx : ℕ) (r : BlockRange) : Type 0 where
  pub deep : 1 ≤ layer
  pub first : ℕ
  pub stop : ℕ
  pub starts : r.start ≡ first * leaf_size layer
  pub ends : r.end + 1 ≡ stop * leaf_size layer
  pub nonempty : first < stop
  pub low : idx * leaves layer ≤ first
  pub high : stop ≤ (idx + 1) * leaves layer

div_exact : (q d : ℕ) → 0 < d → q * d / d ≡ q
div_exact q d h = div-eq_of_lt-le d (omega arith) (omega arith)

div_last : (q e d : ℕ) → 0 < d → 0 < q → e + 1 ≡ q * d → e / d ≡ q - 1
div_last q e d h p eq =
    let whole : q ≡ q - 1 + 1 = omega arith in
    let parts = ap (λ (t : ℕ). t * d) whole in
    div-eq_of_lt-le d (omega (arith, parts)) (omega (arith, parts))

-- A version lies in a range of whole leaves if its leaf does.
within-div :
    (u q r first stop start end v : ℕ)
    → r < u
    → v ≡ q * u + r
    → start ≡ first * u
    → end + 1 ≡ stop * u
    → first < stop
    → within v start end ≡ within q first (stop - 1)
within-div u q r first stop start end v h ev es ee ne = ground (
  arith,
  mul-le-mul_right {m = first} {n = q} u,
  mul-le-mul_right {m = q + 1} {n = first} u,
  mul-le-mul_right {m = q + 1} {n = stop} u,
  mul-le-mul_right {m = stop} {n = q} u,
)

within-sub :
    (q first last base : ℕ)
    → base ≤ first
    → base ≤ last
    → base ≤ q
    → (leb (first - base) (q - base) && leb (q - base) (last - base)) ≡ (leb first q && leb q last)
within-sub q first last base h k m = ground arith

leaf_within :
    (u n idx q r v : ℕ)
    → r < u
    → v ≡ q * u + r
    → idx * (n * u) ≤ v
    → v < (idx + 1) * (n * u)
    → (idx * n ≤ q) × (q < (idx + 1) * n)
leaf_within u n idx q r v h e low high = (
  ground (arith, mul-le-mul_right {m = q + 1} {n = idx * n} u),
  ground (arith, mul-le-mul_right {m = (idx + 1) * n} {n = q} u),
)

leaves_small : (layer : ℕ) → leaves layer ≤ 2 ^ 52
unfolding leaves
leaves_small layer = ground arith

module _ (layer idx : ℕ) (r : BlockRange) (f : Fits layer idx r) (v : ℕ) where
  range_nodes_lem :
      range_nodes layer idx (some r)
      ≡ find_covering_nodes
          (leaves layer)
          (f.first - idx * leaves layer)
          (f.stop - 1 - idx * leaves layer)
  unfolding range_nodes
  range_nodes_lem =
      let pos = leaf_size_pos layer in
      let n = leaves layer in
      let u = leaf_size layer in
      let base : idx * (n * u) ≡ idx * n * u = omega arith in
      rw (
        batch_size_leaves layer f.deep,
        div_exact n u pos,
        base,
        div_exact (idx * n) u pos,
        f.starts,
        div_exact f.first u pos,
        div_last f.stop r.end u pos (omega (arith, f.nonempty)) f.ends,
      )

  module _ (low : idx * batch_size layer ≤ v) (high : v < (idx + 1) * batch_size layer) where
    leaf_bounds :
        (idx * leaves layer ≤ v / leaf_size layer)
        × (v / leaf_size layer < (idx + 1) * leaves layer)
    leaf_bounds =
        let whole = batch_size_leaves layer f.deep in
        leaf_within (leaf_size layer) (leaves layer) idx (v / leaf_size layer) (v % leaf_size layer)
          v (mod-lt v (leaf_size_pos layer)) (sym (div-add-mod' v (leaf_size layer)))
          (rw whole at low) (rw whole at high)

    -- For a commitment whose range fits its tree, FindNodesToInterpolate ends without a panic, and from
    -- the leaf of each version of the tree exactly one of the nodes is met on the way to the root if
    -- the version lies in the range, and none otherwise.
    pub range_nodes-exact :
        (out : List ℕ) × (range_nodes layer idx (some r) ≡ some out)
        × (hits (leaves layer - 1 + (v / leaf_size layer - idx * leaves layer)) out
            ≡ within v r.start r.end)
    range_nodes-exact =
        let pos = leaf_size_pos layer in
        let (l, h) = leaf_bounds in
        let n = leaves layer in
        let (out, run, count) =
          find_covering_nodes-exact n (f.first - idx * n) (f.stop - 1 - idx * n)
            (v / leaf_size layer - idx * n) (leaves_small layer)
            (omega (arith, f.low, f.high, f.nonempty)) (omega arith) in
        (
          out,
          range_nodes_lem ∙ run,
          count
              ∙ rw
                  (within-sub (v / leaf_size layer) f.first (f.stop - 1) (idx * n) f.low
                    (omega (arith, f.low, f.nonempty)) l)
                  (sym (
                    within-div (leaf_size layer) (v / leaf_size layer) (v % leaf_size layer) f.first
                      f.stop r.start r.end v (mod-lt v pos) (sym (div-add-mod' v (leaf_size layer)))
                      f.starts f.ends f.nonempty)),
        )
