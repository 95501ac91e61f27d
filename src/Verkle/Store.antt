-- ===== src/Verkle/Store.antt =====
-- internal/verklekzg/store/nodestore.go: the nodes of the trie, each under its path and the block that wrote it.
-- The ordered database of internal/verkle/store is a parameter.
pub mod Order
pub mod Latest
pub mod Load
pub mod Entries
mod Runs
use smaran.Prelude.{
  ℕ, ◌+◌, ◌%◌, ◌^◌, ◌≡◌, Bool, true, false, Option, some, none, List, [], ◌∷◌, ◌++◌, length, take,
  ltb, ◌==◌, bytes_eq, if◌then◌else◌, map,
}
use smaran.Bytes.{be_bytes}
use mathlib.Core.Option
use smaran.Meta.{prefix_root, key_last}
use smaran.Verkle.{PointCodec, VerkleNode, empty, internal, leaf, hashed}
use smaran.Verkle.Serialize.{parse_node}
use smaran.Verkle.Trie.{Resolver}
use smaran.Verkle.Flush.{SerializedNode}

-- bytes.Compare is negative.
unfoldable pub bytes_lt : List ℕ → List ℕ → Bool
bytes_lt xs [] = false
bytes_lt [] (y ∷ ys) = true
bytes_lt (x ∷ xs) (y ∷ ys) = if ltb x y then true else if x == y then bytes_lt xs ys else false

-- Get, and SeekLT of a new iterator with the key and the value there: the largest key strictly less than the
-- given one.
pub record OrderedStore : Type 1 where
  pub Db : Type 0
  pub fetch : Db → List ℕ → Option (List ℕ)
  pub seek_lt : Db → List ℕ → Option (List ℕ × List ℕ)
  pub seek_lt-some :
      (db : Db) (bound k v : List ℕ)
      → seek_lt db bound ≡ some (k, v)
      → (fetch db k ≡ some v)
        × (bytes_lt k bound ≡ true)
        × ((j : List ℕ) → bytes_lt j bound ≡ true → bytes_lt k j ≡ true → fetch db j ≡ none)
  pub seek_lt-none :
      (db : Db) (bound j : List ℕ)
      → seek_lt db bound ≡ none
      → bytes_lt j bound ≡ true
      → fetch db j ≡ none

-- "vn:", one byte for the length of the path, and the path.
unfoldable pub versioned_node_prefix : List ℕ → List ℕ
versioned_node_prefix path = 118 ∷ 110 ∷ 58 ∷ length path % 256 ∷ path

unfoldable pub versioned_node_key : List ℕ → ℕ → List ℕ
unfolding versioned_node_prefix
versioned_node_key path block = versioned_node_prefix path ++ be_bytes 8 block

-- SaveNodes: the keys and values that its batch puts.
unfoldable pub save_nodes : List SerializedNode → ℕ → List (List ℕ × List ℕ)
unfolding versioned_node_key
save_nodes [] block = []
save_nodes ((path, bytes) ∷ nodes) block =
    (versioned_node_key path block, bytes) ∷ save_nodes nodes block

-- `none` is the error, node not found.
unfoldable pub at_prefix : List ℕ → Option (List ℕ × List ℕ) → Option (List ℕ)
at_prefix prefix none = none
at_prefix prefix (some (k, v)) =
    if ltb (length k) (length prefix)
    then none
    else if bytes_eq (take (length prefix) k) prefix
    then some v
    else none

unfoldable pub resolve_node_at_block : (s : OrderedStore) → s.Db → List ℕ → ℕ → Option (List ℕ)
unfolding at_prefix versioned_node_key versioned_node_prefix
resolve_node_at_block s db path block =
    at_prefix (versioned_node_prefix path)
      (s.seek_lt db (versioned_node_key path ((block + 1) % 2 ^ 64)))

-- VersionedNodeResolverFn
unfoldable pub versioned_node_resolver : (s : OrderedStore) → s.Db → ℕ → Resolver
versioned_node_resolver s db block path = resolve_node_at_block s db path block

unfoldable pub as_internal : {P : Type 0} → VerkleNode P → Option (VerkleNode P)
as_internal empty = none
as_internal (internal children commitment hashes depth dirty) =
    some (internal children commitment hashes depth dirty)
as_internal (leaf l) = none
as_internal (hashed commitment path) = none

-- LoadTree; `none` is an error.
unfoldable pub load_tree :
    (pc : PointCodec) (s : OrderedStore) → s.Db → ℕ → Option (VerkleNode pc.crypto.Point)
unfolding as_internal
load_tree pc s db block =
    Option.bind (resolve_node_at_block s db [] block)
      (λ bytes. Option.bind (parse_node pc bytes) as_internal)

-- "meta:root:" and "meta:last".
unfoldable pub block_key : ℕ → List ℕ
block_key block = prefix_root ++ be_bytes 8 block

-- SaveBlockState: the keys and values that its batch puts, in this order.
unfoldable pub save_block_state : List SerializedNode → ℕ → List ℕ → List (List ℕ × List ℕ)
unfolding save_nodes block_key
save_block_state nodes block root_commitment =
    save_nodes nodes block ++ (block_key block, root_commitment) ∷ (key_last, be_bytes 8 block) ∷ []
