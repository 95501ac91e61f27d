-- ===== src/Rebuild.antt =====
-- internal/kt/proof/rebuild.go: ProofSegmentTree, the trees of four layers built again from their leaves.
-- An array or map by layer is a function of the layer.
pub mod Same
mod Runs
use smaran.Prelude.{
  ℕ, zero, suc, ◌+◌, ◌-◌, ◌*◌, ◌/◌, ◌%◌, ◌^◌, ◌||◌, ◌&&◌, Bool, ltb, leb, Option, some, none, ◌==◌,
  if◌then◌else◌,
}
use mathlib.Core.Option
use smaran.Node.{parent_of}
use smaran.Query.Geometry.{l1_batch_size, l2_batch_size, batch_size, pow}
use smaran.Account.{BatchTree, update_at}
use smaran.Account.Curve.{Crypto}

pub record ProofSegmentTree : Type 0 where
  pub lx_tree : ℕ → BatchTree
  -- Storage.L1Tree to L4Tree: by layer and index, `none` for an absent key.
  pub storage : ℕ → ℕ → Option BatchTree

unfoldable pub new_proof_segment_tree : ProofSegmentTree
new_proof_segment_tree = record { lx_tree = λ layer i. 0; storage = λ layer i. none }

-- `if blockNumber%(…) == 0`, for the four layers in turn.
unfoldable pub reset : ℕ → ℕ → ProofSegmentTree → ProofSegmentTree
reset block_number layer s =
    if block_number % batch_size layer == 0
    then record s { lx_tree = update_at layer (λ i. 0) s.lx_tree }
    else s

-- idx0 to idx3 as offsets into the arrays.
unfoldable pub leaf_idx : ℕ → ℕ → ℕ
leaf_idx block_number layer =
    if layer == 1
    then l1_batch_size - 1 + block_number % l1_batch_size
    else l2_batch_size
      - 1
      + block_number / (l1_batch_size * pow l2_batch_size (layer - 2)) % l2_batch_size

abbrev pub segment_tree_size : ℕ
segment_tree_size = l1_batch_size * 2

-- The copy of a tree into Storage.
unfoldable pub store : ℕ → ℕ → ProofSegmentTree → ProofSegmentTree
store block_number layer s = record s {
  storage =
      update_at layer
        (update_at (block_number / batch_size layer) (some (s.lx_tree layer)) (s.storage layer))
        s.storage;
}

-- The layer has a tree, and the index and those of its siblings up to the root are in the array.
unfoldable pub in_tree : ℕ → ℕ → Bool
in_tree idx layer = ltb 0 layer && leb layer 4 && ltb (idx + idx % 2) segment_tree_size

module _ (c : Crypto) where
  -- `for idx > 0`, on fuel.
  unfoldable pub rebuild_loop : ℕ → ℕ → BatchTree → BatchTree
  rebuild_loop zero idx t = t
  rebuild_loop (suc fuel) idx t =
      let parent = parent_of idx in
      let l_child = t (2 * parent + 1) in
      let r_child = t (2 * parent + 2) in
      let rest = rebuild_loop fuel parent (update_at parent (c.hash_pair l_child r_child) t) in
      if idx == 0 then t else if l_child == 0 || r_child == 0 then t else rest

  -- `none` is a panic: a layer without a tree, or an index out of range.
  unfoldable pub update_layer_x : ℕ → ℕ → ℕ → ProofSegmentTree → Option ProofSegmentTree
  unfolding in_tree rebuild_loop
  update_layer_x idx val layer s =
      if val == 0
      then some s
      else if in_tree idx layer
      then some (record s {
        lx_tree =
            update_at layer (rebuild_loop idx idx (update_at idx val (s.lx_tree layer))) s.lx_tree;
      })
      else none

  -- The leaf of layer 1 is the balance as a hash, that of a layer above the root of the layer below.
  unfoldable pub update : ℕ → ℕ → ProofSegmentTree → Option ProofSegmentTree
  unfolding reset leaf_idx store update_layer_x
  update block_number balance s =
      let b = block_number in
      let s0 = reset b 4 (reset b 3 (reset b 2 (reset b 1 s))) in
      Option.bind (update_layer_x (leaf_idx b 1) (balance % 2 ^ 256) 1 s0) (λ s1.
        Option.bind (update_layer_x (leaf_idx b 2) (s1.lx_tree 1 0) 2 s1) (λ s2.
          Option.bind (update_layer_x (leaf_idx b 3) (s2.lx_tree 2 0) 3 s2) (λ s3.
            Option.bind (update_layer_x (leaf_idx b 4) (s3.lx_tree 3 0) 4 s3)
              (λ s4. some (store b 4 (store b 3 (store b 2 (store b 1 s4))))))))
