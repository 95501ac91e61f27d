-- ===== src/Verkle/Flush.antt =====
-- internal/verklekzg/tree/tree.go: BatchSerialize, the nodes of a trie for the database.
pub mod Nodes
pub mod Reload
use smaran.Prelude.{ℕ, zero, suc, ◌+◌, Option, some, none, List, [], ◌∷◌, ◌++◌}
use mathlib.Core.Option
use smaran.Verkle.{PointCodec, VerkleNode, empty, internal, leaf, hashed}
use smaran.Verkle.Serialize.{serialize}

-- SerializedNode: the path and the bytes.
abbrev pub SerializedNode : Type 0
SerializedNode = List ℕ × List ℕ

-- The loop over the children, from `i` on; `none` is an error of one of them.
unfoldable pub batch_children :
    (ℕ → Option (List SerializedNode)) → ℕ → ℕ → Option (List SerializedNode)
batch_children child zero i = some []
batch_children child (suc rounds) i =
    Option.bind (child i)
      (λ nodes. Option.map (λ rest. nodes ++ rest) (batch_children child rounds (i + 1)))

module _ (pc : PointCodec) where
  -- batchSerializeRec; a nil child and a stub are skipped.
  unfoldable pub batch_serialize :
      VerkleNode pc.crypto.Point → List ℕ → Option (List SerializedNode)
  batch_serialize empty path = some []
  batch_serialize (hashed commitment q) path = some []
  batch_serialize (leaf l) path = Option.map (λ bytes. (path, bytes) ∷ []) (serialize pc (leaf l))
  batch_serialize (internal children commitment hashes depth dirty) path =
      Option.bind (serialize pc (internal children commitment hashes depth dirty)) (λ bytes.
        Option.map (λ rest. (path, bytes) ∷ rest)
          (batch_children (λ i. batch_serialize (children i) (path ++ i ∷ [])) 256 0))
