-- ===== src/Query/Dependencies.antt =====
-- addDepencencyCommitments: the trees above those of a query, up to the top layer.
pub mod Closed
use smaran.Prelude.{
  ℕ, zero, suc, ◌+◌, ◌/◌, ◌*◌, Bool, false, ◌&&◌, ◌||◌, Option, some, none, List, [], ◌∷◌, ◌++◌,
}
use smaran.Prelude.{length, ◌==◌, if◌then◌else◌}
use smaran.Query.Geometry.{l2_batch_size}
use smaran.Query.Ranges.{RangeCommitment, find_range_covering_commitments}

-- The key "layer:idx" of the map; two keys are equal if both numbers are.
unfoldable pub has_key : ℕ → ℕ → RangeCommitment → Bool
has_key layer idx c = c.layer == layer && c.idx == idx

-- `_, exists := commitHashMap[key]`
unfoldable pub exists_key : ℕ → ℕ → List RangeCommitment → Bool
unfolding has_key
exists_key layer idx [] = false
exists_key layer idx (c ∷ cs) = has_key layer idx c || exists_key layer idx cs

-- The map keeps one commitment for a key; a Go map lists its entries in any order, here the oldest first.
unfoldable pub put : RangeCommitment → List RangeCommitment → List RangeCommitment
unfolding has_key
put new [] = new ∷ []
put new (c ∷ cs) = if has_key new.layer new.idx c then new ∷ cs else c ∷ put new cs

-- `commitHashMap[key].DependentCommitments = append(…, dep)`
unfoldable pub add_dependent : ℕ → ℕ → ℕ → List RangeCommitment → List RangeCommitment
unfolding has_key
add_dependent layer idx dep [] = []
add_dependent layer idx dep (c ∷ cs) =
    if has_key layer idx c
    then record c { dependent_commitments = c.dependent_commitments ++ dep ∷ [] } ∷ cs
    else c ∷ add_dependent layer idx dep cs

abbrev pub parent_commitment : RangeCommitment → RangeCommitment
parent_commitment d = record {
  idx = d.idx / l2_batch_size;
  layer = d.layer + 1;
  block_range = none;
  dependent_commitments = d.idx ∷ [];
}

-- The first loop: every commitment goes into the map and into the queue.
unfoldable pub collect : List RangeCommitment → List RangeCommitment → List RangeCommitment
unfolding put
collect entries [] = entries
collect entries (d ∷ ds) = collect (put d entries) ds

-- The loop over the queue on fuel; `none` is the end of the fuel.
unfoldable pub dependency_loop :
    ℕ → ℕ → List RangeCommitment → List RangeCommitment → Option (List RangeCommitment)
unfolding exists_key add_dependent put
dependency_loop max_layer fuel entries [] = some entries
dependency_loop max_layer zero entries (d ∷ queue) = none
dependency_loop max_layer (suc fuel) entries (d ∷ queue) =
    let known =
      dependency_loop max_layer fuel
        (add_dependent (d.layer + 1) (d.idx / l2_batch_size) d.idx entries) queue in
    let fresh =
      dependency_loop max_layer fuel (put (parent_commitment d) entries)
        (queue ++ parent_commitment d ∷ []) in
    let skip = dependency_loop max_layer fuel entries queue in
    if d.layer == max_layer
    then skip
    else if exists_key (d.layer + 1) (d.idx / l2_batch_size) entries
    then known
    else fresh

-- A queued commitment is taken once and queues one of the next layer at most.
unfoldable pub add_depencency_commitments : ℕ → List RangeCommitment → Option (List RangeCommitment)
unfolding collect dependency_loop
add_depencency_commitments max_layer ds =
    dependency_loop max_layer (length ds * max_layer) (collect [] ds) ds

unfoldable pub find_commitments_covering_range : ℕ → ℕ → ℕ → Option (List RangeCommitment)
unfolding add_depencency_commitments
find_commitments_covering_range max_layer sb eb =
    add_depencency_commitments max_layer (find_range_covering_commitments max_layer sb eb 1)
