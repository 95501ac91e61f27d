-- ===== src/Verkle/Serialize.antt =====
-- internal/verklekzg/tree/serialize.go: the binary form of a node.
mod Bitmap
pub mod RoundTrip
pub mod Stubs
use smaran.Prelude.{
  ℕ, zero, suc, ◌+◌, ◌*◌, ◌/◌, ◌%◌, ◌^◌, Bool, true, false, Option, some, none, List, [], ◌∷◌, ◌++◌,
}
use smaran.Prelude.{length, take, drop, get_or, ltb, ◌==◌, if◌then◌else◌, not}
use mathlib.Core.Option
use smaran.Bytes.{be_value}
use smaran.Account.{update_at}
use smaran.Account.Curve.{Crypto}
use smaran.Verkle.{
  PointCodec, LeafNode, VerkleNode, empty, internal, leaf, hashed, node_commitment, is_nil,
}

abbrev pub bit : Bool → ℕ
bit true = 1
bit false = 0

-- bitmap[j], as the sum of the bits that the loop sets in it.
unfoldable pub bitmap_byte : (ℕ → Bool) → ℕ → ℕ
bitmap_byte present j =
    bit (present (8 * j))
    + 2 * bit (present (8 * j + 1))
    + 4 * bit (present (8 * j + 2))
    + 8 * bit (present (8 * j + 3))
    + 16 * bit (present (8 * j + 4))
    + 32 * bit (present (8 * j + 5))
    + 64 * bit (present (8 * j + 6))
    + 128 * bit (present (8 * j + 7))

-- `rounds` bytes of the bitmap, from byte `j` on.
unfoldable pub bitmap_from : (ℕ → Bool) → ℕ → ℕ → List ℕ
unfolding bitmap_byte
bitmap_from present zero j = []
bitmap_from present (suc rounds) j = bitmap_byte present j ∷ bitmap_from present rounds (j + 1)

-- `bitmap[i/8]&(1<<(uint(i)%8)) != 0`
unfoldable pub has_bit : List ℕ → ℕ → Bool
has_bit bitmap i = not (get_or bitmap (i / 8) 0 / 2 ^ (i % 8) % 2 == 0)

unfoldable pub is_some {ℓ} : {A : Type ℓ} → Option A → Bool
is_some none = false
is_some (some a) = true

-- The values of the slots from `i` on, those that are there.
unfoldable pub values_from : (ℕ → Option (List ℕ)) → ℕ → ℕ → List ℕ
values_from values zero i = []
values_from values (suc rounds) i =
    let rest = values_from values rounds (i + 1) in
    elim (values i) [ none ↦ rest | some v ↦ v ++ rest ]

-- The slots of a leaf from `i` on, as parseLeafNode fills them: `none` is a truncated input.
unfoldable pub parse_values : List ℕ → ℕ → ℕ → List ℕ → Option (ℕ → Option (List ℕ))
unfolding has_bit
parse_values bitmap zero i bytes = some (λ j. none)
parse_values bitmap (suc rounds) i bytes =
    let skip = parse_values bitmap rounds (i + 1) bytes in
    let rest = parse_values bitmap rounds (i + 1) (drop 32 bytes) in
    if has_bit bitmap i
    then (if ltb (length bytes) 32
        then none
        else Option.map (update_at i (some (take 32 bytes))) rest)
    else skip

module _ (pc : PointCodec) where
  -- Tag, depth, commitment, bitmap, and the commitments of the children from `i` on.
  unfoldable pub children_from : (ℕ → VerkleNode pc.crypto.Point) → ℕ → ℕ → List ℕ
  unfolding node_commitment is_nil
  children_from children zero i = []
  children_from children (suc rounds) i =
      let rest = children_from children rounds (i + 1) in
      if is_nil (children i)
      then rest
      else pc.point_bytes (node_commitment pc.crypto (children i)) ++ rest

  -- `none` is an error, of a hashed or an empty node.
  unfoldable pub serialize : VerkleNode pc.crypto.Point → Option (List ℕ)
  serialize empty = none
  serialize (internal children commitment hashes depth dirty) = some (
      1
      ∷ depth
      ∷ (pc.point_bytes commitment
          ++ (bitmap_from (λ i. not (is_nil (children i))) 32 0 ++ children_from children 256 0)))
  serialize (leaf l) = some (
      2
      ∷ (l.stem
          ++ (pc.point_bytes l.commitment
              ++ (bitmap_from (λ i. is_some (l.values i)) 32 0 ++ values_from l.values 256 0))))
  serialize (hashed commitment path) = none

  -- The children of a parsed node are stubs with their commitments and no path.
  unfoldable pub parse_children : List ℕ → ℕ → ℕ → List ℕ → Option (ℕ → VerkleNode pc.crypto.Point)
  unfolding has_bit
  parse_children bitmap zero i bytes = some (λ j. empty)
  parse_children bitmap (suc rounds) i bytes =
      let skip = parse_children bitmap rounds (i + 1) bytes in
      let rest = parse_children bitmap rounds (i + 1) (drop 48 bytes) in
      if has_bit bitmap i
      then (if ltb (length bytes) 48
          then none
          else Option.bind (pc.set_bytes (take 48 bytes))
              (λ p. Option.map (update_at i (hashed p [])) rest))
      else skip

  -- childHashes of a parsed node; a slot without a child keeps the zero hash. The code takes Keccak256 here, which
  -- is the type that internal/crypto/hash is set to.
  unfoldable pub stub_hash : VerkleNode pc.crypto.Point → ℕ
  unfolding node_commitment is_nil
  stub_hash n = if is_nil n then 0 else pc.crypto.commitment_to_hash (node_commitment pc.crypto n)

  unfoldable pub parse_internal_node : List ℕ → Option (VerkleNode pc.crypto.Point)
  parse_internal_node data_bytes =
      if ltb (length data_bytes) 82
      then none
      else Option.bind (pc.set_bytes (take 48 (drop 2 data_bytes))) (λ commitment.
        Option.map
          (λ children.
            internal children commitment (λ i. stub_hash (children i)) (get_or data_bytes 1 0)
              false)
          (parse_children (take 32 (drop 50 data_bytes)) 256 0 (drop 82 data_bytes)))

  -- cachedSlotHashes of a parsed leaf: the values as numbers, and the hash of the stem in slot 255.
  unfoldable pub slot_hash : List ℕ → (ℕ → Option (List ℕ)) → ℕ → ℕ
  slot_hash stem values i =
      if i == 255
      then pc.crypto.bytes_to_hash stem
      else elim (values i) [ none ↦ 0 | some v ↦ be_value v ]

  unfoldable pub parse_leaf_node : List ℕ → Option (VerkleNode pc.crypto.Point)
  parse_leaf_node data_bytes =
      if ltb (length data_bytes) 112
      then none
      else let stem = take 31 (drop 1 data_bytes) in
        Option.bind (pc.set_bytes (take 48 (drop 32 data_bytes))) (λ commitment.
          Option.map
            (λ values. leaf (record {
              stem = stem;
              values = values;
              commitment = commitment;
              cached_slot_hashes = slot_hash stem values;
              dirty = false;
            }))
            (parse_values (take 32 (drop 80 data_bytes)) 256 0 (drop 112 data_bytes)))

  unfoldable pub parse_node : List ℕ → Option (VerkleNode pc.crypto.Point)
  parse_node [] = none
  parse_node (tag ∷ bytes) =
      if tag == 1
      then parse_internal_node (tag ∷ bytes)
      else if tag == 2
      then parse_leaf_node (tag ∷ bytes)
      else none
