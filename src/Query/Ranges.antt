-- ===== src/Query/Ranges.antt =====
-- findRangeCoveringCommitments: which trees, by layer and index, cover a range of versions.
pub mod Step
pub mod Exact
pub mod Fit
use smaran.Prelude.{ℕ, zero, suc, ◌+◌, ◌-◌, ◌*◌, ◌/◌, ◌%◌, Bool, not, ◌&&◌, ◌||◌}
use smaran.Prelude.{Option, some, none, List, [], ◌∷◌, ◌++◌, ltb, ◌==◌, if◌then◌else◌}
use smaran.Query.Geometry.{batch_size}

pub record BlockRange : Type 0 where
  pub start : ℕ
  pub end : ℕ

pub record RangeCommitment : Type 0 where
  pub idx : ℕ
  pub layer : ℕ
  pub block_range : Option BlockRange
  pub dependent_commitments : List ℕ

abbrev pub commitment : ℕ → ℕ → ℕ → ℕ → RangeCommitment
commitment idx layer start end = record {
  idx = idx;
  layer = layer;
  block_range = some (record { start = start; end = end });
  dependent_commitments = [];
}

-- The parts of one call, for trees of `size` versions each.
unfoldable pub has_left_fragment : ℕ → ℕ → Bool
has_left_fragment size sb = not (sb % size == 0)

unfoldable pub has_right_fragment : ℕ → ℕ → Bool
has_right_fragment size eb = not (eb % size == size - 1)

unfoldable pub in_one_batch : ℕ → ℕ → ℕ → Bool
unfolding has_left_fragment has_right_fragment
in_one_batch size sb eb =
    sb / size == eb / size && (has_left_fragment size sb || has_right_fragment size eb)

unfoldable pub left_fragment : ℕ → ℕ → ℕ → List RangeCommitment
unfolding has_left_fragment
left_fragment size layer sb =
    if has_left_fragment size sb
    then commitment (sb / size) layer sb ((sb / size + 1) * size - 1) ∷ []
    else []

unfoldable pub right_fragment : ℕ → ℕ → ℕ → List RangeCommitment
unfolding has_right_fragment
right_fragment size layer eb =
    if has_right_fragment size eb
    then commitment (eb / size) layer (eb / size * size) eb ∷ []
    else []

-- `sb` and `eb` after the fragments were cut off.
unfoldable pub rest_start : ℕ → ℕ → ℕ
unfolding has_left_fragment
rest_start size sb = if has_left_fragment size sb then (sb / size + 1) * size - 1 + 1 else sb

unfoldable pub rest_end : ℕ → ℕ → ℕ
unfolding has_right_fragment
rest_end size eb = if has_right_fragment size eb then eb / size * size - 1 else eb

-- The first argument is tree.MaxLayer - layer, so `layer < tree.MaxLayer` is the second clause.
-- The code's `eb` can become -1, only where `sb < eb` fails at 0 as well.
unfoldable pub cover_layers : ℕ → ℕ → ℕ → ℕ → List RangeCommitment
unfolding in_one_batch left_fragment right_fragment rest_start rest_end
cover_layers zero sb eb layer =
    let size = batch_size layer in
    if in_one_batch size sb eb
    then commitment (sb / size) layer sb eb ∷ []
    else left_fragment size layer sb ++ right_fragment size layer eb
cover_layers (suc above) sb eb layer =
    let size = batch_size layer in
    let upper = cover_layers above (rest_start size sb) (rest_end size eb) (layer + 1) in
    if in_one_batch size sb eb
    then commitment (sb / size) layer sb eb ∷ []
    else left_fragment size layer sb
      ++ (right_fragment size layer eb
          ++ (if ltb (rest_start size sb) (rest_end size eb) then upper else []))

unfoldable pub find_range_covering_commitments : ℕ → ℕ → ℕ → ℕ → List RangeCommitment
unfolding cover_layers
find_range_covering_commitments max_layer sb eb layer = cover_layers (max_layer - layer) sb eb layer
