-- ===== src/Query/Interpolate.antt =====
-- FindNodesToInterpolate: the nodes of the tree of one commitment that a proof opens.
pub mod Exact
use smaran.Prelude.{ℕ, zero, suc, ◌+◌, ◌-◌, ◌*◌, ◌/◌, ◌%◌, Option, some, none, List, [], ◌∷◌, ◌++◌}
use smaran.Prelude.{Bool, ltb, leb, if◌then◌else◌}
use smaran.Query.Geometry.{batch_size, leaf_size, l2_batch_size}
use smaran.Query.Nodes.{find_covering_nodes}
use smaran.Query.Ranges.{BlockRange, RangeCommitment}
use mathlib.Core.Option

-- The loop over DependentCommitments; `none` is the panic "layer1 cannot have dependents".
unfoldable pub dependent_nodes : ℕ → List ℕ → Option (List ℕ)
dependent_nodes layer [] = some []
dependent_nodes layer (dep ∷ deps) =
    if leb layer 1
    then none
    else Option.map (◌∷◌ (2 * l2_batch_size - 1 + dep % l2_batch_size)) (dependent_nodes layer deps)

-- The leaves of the tree that the range spans. In layer 1 the code divides by nothing, here by 1.
unfoldable pub range_nodes : ℕ → ℕ → Option BlockRange → Option (List ℕ)
range_nodes layer idx none = some []
range_nodes layer idx (some r) =
    let denom = leaf_size layer in
    let first = idx * batch_size layer / denom in
    find_covering_nodes (batch_size layer / denom) (r.start / denom - first) (r.end / denom - first)

unfoldable pub find_nodes_to_interpolate : RangeCommitment → Bool → Option (List ℕ)
unfolding dependent_nodes range_nodes
find_nodes_to_interpolate c include_dependent_commitments =
    Option.bind
      (if include_dependent_commitments
        then dependent_nodes c.layer c.dependent_commitments
        else some [])
      (λ deps. Option.map (◌++◌ deps) (range_nodes c.layer c.idx c.block_range))
