-- ===== src/Query/Ranges/Exact.antt =====
-- The ranges of the commitments that findRangeCoveringCommitments returns part the range it is asked for.
use smaran.Prelude.{
  ℕ, zero, suc, ◌+◌, ◌-◌, ◌*◌, ◌/◌, ◌≤◌, ◌<◌, ◌≡◌, sym, arith, true, false, List, [], ◌∷◌,
}
use smaran.Prelude.{ltb, if◌then◌else◌, Bool-cases, inl, inr}
use smaran.Query.Geometry.{batch_size, batch_size_one, batch_size_pos}
use native.Mathlib.Nat.{div-eq_of_lt, mod-eq_of_lt, add-zero}
use smaran.Query.Ranges.{RangeCommitment, cover_layers, in_one_batch, commitment}
use smaran.Query.Ranges.{rest_start, rest_end, find_range_covering_commitments}
use smaran.Query.Ranges.Step.{
  within, covered, covered-append, fragments_rest, rest_empty, rest_end-le,
}

within_empty : (v start end : ℕ) → end < start → within v start end ≡ 0
within_empty v start end h = ground arith

module _ (layer : ℕ) where
  wide : 1 < batch_size layer
  wide = omega (arith, batch_size_pos layer)

  -- A range that ends before the last version of the first tree of the layer lies in one tree.
  one_tree :
      (sb eb : ℕ)
      → sb ≤ eb
      → eb + 1 < batch_size layer
      → in_one_batch (batch_size layer) sb eb ≡ true
  unfolding in_one_batch
  one_tree sb eb le h =
      rw
        (
          div-eq_of_lt {n = sb} {m = batch_size layer} (omega arith),
          div-eq_of_lt {n = eb} {m = batch_size layer} (omega arith),
          mod-eq_of_lt {n = eb} {m = batch_size layer} (omega arith),
        )
        (ground arith)

covered_one : (v sb eb idx layer : ℕ) → covered v (commitment idx layer sb eb ∷ []) ≡ within v sb eb
unfolding covered
covered_one v sb eb idx layer = omega arith

-- The two outcomes of the last test of a call.
rest_covered :
    (v sb eb : ℕ) (upper : List RangeCommitment)
    → (ltb sb eb ≡ true → covered v upper ≡ within v sb eb)
    → (ltb sb eb ≡ false → eb < sb)
    → covered v (if ltb sb eb then upper else []) ≡ within v sb eb
unfolding covered
rest_covered v sb eb upper more done = elim (Bool-cases (ltb sb eb)) [
  | inl e ↦ rw e (more e)
  | inr e ↦ rw e (sym (within_empty v sb eb (done e)))
]

cover_layers_lem :
    (above sb eb layer v : ℕ)
    → sb ≤ eb
    → eb + 1 < batch_size (layer + above)
    → covered v (cover_layers above sb eb layer) ≡ within v sb eb
unfolding cover_layers
cover_layers_lem zero sb eb layer v le h =
    rw (one_tree layer sb eb le (rw (add-zero layer) at h)) (covered_one v sb eb _ layer)
cover_layers_lem (suc above) sb eb layer v le h =
    let size = batch_size layer in
    elim (Bool-cases (in_one_batch size sb eb)) [
      | inl e ↦ rw e (covered_one v sb eb _ layer)
      | inr e ↦
          let upper = cover_layers above (rest_start size sb) (rest_end size eb) (layer + 1) in
          let shifted : layer + suc above ≡ layer + 1 + above = omega arith in
          let small : eb + 1 < batch_size (layer + 1 + above) = rw shifted at h in
          let less = rest_end-le size (wide layer) sb eb le e in
          let top =
            rest_covered v (rest_start size sb) (rest_end size eb) upper
              (λ more.
                cover_layers_lem above (rest_start size sb) (rest_end size eb) (layer + 1) v
                  (ground arith) (omega arith))
              (rest_empty size (wide layer) sb eb le e) in
          rw (e, covered-append, covered-append, top)
            (omega (arith, fragments_rest size (wide layer) sb eb le e v layer))
    ]

-- For a range of versions that ends before the last version of the first tree of the top layer, every
-- version of the range lies in the range of exactly one commitment that findRangeCoveringCommitments
-- returns, and a version outside lies in none.
pub find_range_covering_commitments-exact :
    (max_layer sb eb v : ℕ)
    → 1 ≤ max_layer
    → sb ≤ eb
    → eb + 1 < batch_size max_layer
    → covered v (find_range_covering_commitments max_layer sb eb 1) ≡ within v sb eb
unfolding find_range_covering_commitments
find_range_covering_commitments-exact max_layer sb eb v pos le h =
    let whole : max_layer ≡ 1 + (max_layer - 1) = omega arith in
    cover_layers_lem (max_layer - 1) sb eb 1 v le (rw whole at h)

-- With a single layer, as in the key transparency build, a query from version 0 for a whole tree or
-- more returns no commitment for any version of the trees that the range fills.
pub single_layer_gap :
    (eb v : ℕ)
    → 2047 ≤ eb
    → v < (eb + 1) / 2048 * 2048
    → covered v (find_range_covering_commitments 1 0 eb 1) ≡ 0
unfolding find_range_covering_commitments cover_layers covered
single_layer_gap eb v h k = rw batch_size_one (ground arith)
