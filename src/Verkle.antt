-- ===== src/Verkle.antt =====
-- internal/verklekzg/tree/node.go: the nodes of the 256-ary trie of the Verkle-KZG baseline.
pub mod Serialize
pub mod Trie
pub mod Commit
pub mod Flush
pub mod Dirty
pub mod Store
pub mod Ingest
mod Sample
mod Inputs
mod Runs
use smaran.Prelude.{ℕ, Bool, true, false, ◌≡◌, Option, some, none, List, [], length}
use smaran.Account.Curve.{Crypto}
use smaran.Account.{update_at}

abbrev pub width : ℕ
width = 256

-- What the trie uses of gnark-crypto: the curve with its hashes, and the 48 bytes of a point.
pub record PointCodec : Type 1 where
  pub crypto : Crypto
  pub point_bytes : crypto.Point → List ℕ
  -- `none` is the error of SetBytes.
  pub set_bytes : List ℕ → Option crypto.Point
  pub length-point_bytes : (p : crypto.Point) → length (point_bytes p) ≡ 48
  pub set_bytes-point_bytes : (p : crypto.Point) → set_bytes (point_bytes p) ≡ some p

-- An array of 256 is a function; a nil value is `none`.
pub record LeafNode (P : Type 0) : Type 0 where
  pub stem : List ℕ
  pub values : ℕ → Option (List ℕ)
  pub commitment : P
  pub cached_slot_hashes : ℕ → ℕ
  pub dirty : Bool

-- `empty` is a nil child or EmptyNode. An internal node has children, commitment, childHashes, depth and
-- dirty, a hashed one commitment and path.
pub data VerkleNode (P : Type 0) : Type 0 where
  empty : VerkleNode P
  internal : (ℕ → VerkleNode P) → P → (ℕ → ℕ) → ℕ → Bool → VerkleNode P
  leaf : LeafNode P → VerkleNode P
  hashed : P → List ℕ → VerkleNode P

module _ (c : Crypto) where
  unfoldable pub node_commitment : VerkleNode c.Point → c.Point
  node_commitment empty = c.infinity
  node_commitment (internal children commitment hashes depth dirty) = commitment
  node_commitment (leaf l) = l.commitment
  node_commitment (hashed commitment path) = commitment

  unfoldable pub new_internal_node : ℕ → VerkleNode c.Point
  new_internal_node depth = internal (λ i. empty) c.infinity (λ i. 0) depth false

  unfoldable pub new_leaf_node : List ℕ → LeafNode c.Point
  new_leaf_node stem = record {
    stem = stem;
    values = λ i. none;
    commitment = c.infinity;
    cached_slot_hashes = λ i. 0;
    dirty = true;
  }

module _ {P : Type 0} where
  unfoldable pub is_dirty : VerkleNode P → Bool
  is_dirty empty = false
  is_dirty (internal children commitment hashes depth dirty) = dirty
  is_dirty (leaf l) = l.dirty
  is_dirty (hashed commitment path) = false

  unfoldable pub is_nil : VerkleNode P → Bool
  is_nil empty = true
  is_nil other = false

  unfoldable pub set_value : ℕ → Option (List ℕ) → LeafNode P → LeafNode P
  set_value i v l = record l { values = update_at i v l.values; dirty = true }
