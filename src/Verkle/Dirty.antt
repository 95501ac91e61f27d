-- ===== src/Verkle/Dirty.antt =====
-- internal/verklekzg/ingest/dirty.go: the nodes along the paths of the stems that a block has changed.
pub mod Prefixes
pub mod Unwritten
use smaran.Prelude.{
  ℕ, ◌+◌, Bool, true, false, Option, some, none, List, [], ◌∷◌, ◌++◌, length, take, get_or, ltb,
  bytes_eq, ◌||◌, if◌then◌else◌,
}
use mathlib.Core.Option
use smaran.Verkle.{PointCodec, VerkleNode, empty, internal, leaf, hashed, node_commitment}
use smaran.Verkle.Serialize.{serialize}
use smaran.Verkle.Flush.{SerializedNode}

-- `seen`, which has the paths of the nodes so far and no others.
unfoldable pub is_seen : List ℕ → List SerializedNode → Bool
is_seen path [] = false
is_seen path ((q, bytes) ∷ nodes) = bytes_eq q path || is_seen path nodes

-- A node that is not seen yet and has a binary form is appended.
unfoldable pub add_node : List ℕ → Option (List ℕ) → List SerializedNode → List SerializedNode
unfolding is_seen
add_node path none nodes = nodes
add_node path (some bytes) nodes = if is_seen path nodes then nodes else nodes ++ (path, bytes) ∷ []

module _ (pc : PointCodec) where
  -- walkDirtyPath, from the child at `depth` on.
  unfoldable pub walk_dirty_path :
      VerkleNode pc.crypto.Point → List ℕ → ℕ → List SerializedNode → List SerializedNode
  unfolding add_node
  walk_dirty_path empty stem depth nodes = nodes
  walk_dirty_path (hashed commitment q) stem depth nodes = nodes
  walk_dirty_path (leaf l) stem depth nodes =
      if ltb depth (length stem)
      then add_node (take (depth + 1) stem) (serialize pc (leaf l)) nodes
      else nodes
  walk_dirty_path (internal ch digest hs d dirty) stem depth nodes =
      let after =
        walk_dirty_path (ch (get_or stem (depth + 1) 0)) stem (depth + 1)
          (add_node (take (depth + 1) stem) (serialize pc (internal ch digest hs d dirty)) nodes) in
      if ltb depth (length stem) then after else nodes

  -- The loop over the dirty stems, in the order in which Go's map gives them.
  unfoldable pub walk_stems :
      (ℕ → VerkleNode pc.crypto.Point) → List (List ℕ) → List SerializedNode → List SerializedNode
  unfolding walk_dirty_path
  walk_stems ch [] nodes = nodes
  walk_stems ch (stem ∷ stems) nodes =
      walk_stems ch stems
        (if ltb 0 (length stem) then walk_dirty_path (ch (get_or stem 0 0)) stem 0 nodes else nodes)

  -- The children of the root; the root is an internal node.
  unfoldable pub children_of : VerkleNode pc.crypto.Point → ℕ → VerkleNode pc.crypto.Point
  children_of empty = λ i. empty
  children_of (internal ch digest hs d dirty) = ch
  children_of (leaf l) = λ i. empty
  children_of (hashed commitment q) = λ i. empty

  -- The nodes and the bytes of the root's commitment.
  unfoldable pub serialize_dirty_paths :
      VerkleNode pc.crypto.Point → List (List ℕ) → Option (List SerializedNode × List ℕ)
  unfolding walk_stems children_of node_commitment
  serialize_dirty_paths root stems =
      Option.map
        (λ bytes. (
          walk_stems (children_of root) stems (([], bytes) ∷ []),
          pc.point_bytes (node_commitment pc.crypto root),
        ))
        (serialize pc root)
