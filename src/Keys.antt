-- ===== src/Keys.antt =====
-- internal/verkle/keys/keys.go: the tree keys of accounts and the form of their balances in the tree
-- (EIP-6800). The field and the curve of go-verkle are parameters.
pub mod RoundTrip
pub mod Cache
pub mod Sample
mod Runs
use smaran.Prelude.{
  ℕ, suc, ◌+◌, ◌-◌, ◌*◌, ◌^◌, ◌≡◌, List, [], ◌∷◌, ◌++◌, Option, some, none, length, take,
}
use smaran.Prelude.{drop, replicate, leb, ◌==◌, if◌then◌else◌, Map, insert}
use smaran.Bytes.{le_bytes, big_bytes, be_value, blit}
use mathlib.Core.Option

-- verkle.Fr with SetUint64 and FromLEBytes, where `none` is an error, CommitToPoly and HashPointToBytes.
pub record GoVerkle : Type 1 where
  pub Fr : Type 0
  pub Point : Type 0
  pub zero_fr : Fr
  pub set_uint64 : ℕ → Fr
  pub from_le_bytes : List ℕ → Option Fr
  pub commit_to_poly : List Fr → Point
  pub hash_point_to_bytes : Point → List ℕ
  pub from_le_bytes-some : (bs : List ℕ) → length bs ≡ 16 → (f : Fr) × (from_le_bytes bs ≡ some f)
  pub length-hash_point_to_bytes : (p : Point) → length (hash_point_to_bytes p) ≡ 32

-- BasicDataLeafKey
abbrev pub basic_data_leaf_key : ℕ
basic_data_leaf_key = 0

unfoldable pub address_20_to_32 : List ℕ → List ℕ
address_20_to_32 addr = blit 12 addr (replicate 32 0)

-- The bytes of treeIndexLE.
unfoldable pub tree_index_le : ℕ → List ℕ
tree_index_le tree_index = blit 0 (le_bytes 8 tree_index) (replicate 32 0)

module _ (gv : GoVerkle) where
  -- One of the two chunks of 16 bytes of `bs`.
  unfoldable pub chunk : List ℕ → ℕ → Option gv.Fr
  chunk bs i = gv.from_le_bytes (take 16 (drop (16 * i) bs))

  -- GetTreeKey; `none` is a panic.
  unfoldable pub get_tree_key : List ℕ → ℕ → ℕ → Option (List ℕ)
  unfolding chunk tree_index_le
  get_tree_key addr32 tree_index sub_index = Option.bind (chunk addr32 0) (λ p1.
      Option.bind (chunk addr32 1) (λ p2. Option.bind (chunk (tree_index_le tree_index) 0) (λ p3.
        Option.bind (chunk (tree_index_le tree_index) 1) (λ p4.
          let poly = gv.set_uint64 (2 + 256 * 64) ∷ p1 ∷ p2 ∷ p3 ∷ p4 ∷ replicate 251 gv.zero_fr in
          let h = gv.hash_point_to_bytes (gv.commit_to_poly poly) in
          some (take 31 h ++ sub_index ∷ [])))))

  -- GetTreeKeyForBasicData, with treeKeyCache before and after.
  unfoldable pub get_tree_key_for_basic_data :
      Map (List ℕ) → List ℕ → Option (List ℕ × Map (List ℕ))
  unfolding get_tree_key address_20_to_32
  get_tree_key_for_basic_data cache addr = elim (cache addr) [
    | some key ↦ some (key, cache)
    | none ↦
        Option.map (λ key. (key, insert addr key cache))
          (get_tree_key (address_20_to_32 addr) 0 basic_data_leaf_key)
  ]

-- A big.Int, by its sign.
pub data ℤ : Type 0 where
  pos : ℕ → ℤ
  negsuc : ℕ → ℤ

pub data Packed : Type 0 where
  packed : List ℕ → Packed
  overflow : Packed
  negative : Packed

-- PackBasicData; no balance is nil. A BitLen above 128 is a magnitude of 2 ^ 128 or more.
unfoldable pub pack_basic_data : Option ℤ → Packed
pack_basic_data none = packed (replicate 32 0)
pack_basic_data (some (pos n)) =
    if n == 0
    then packed (replicate 32 0)
    else if leb (2 ^ 128) n
    then overflow
    else packed (blit (32 - length (big_bytes n)) (big_bytes n) (replicate 32 0))
pack_basic_data (some (negsuc n)) = if leb (2 ^ 128) (suc n) then overflow else negative

-- UnpackBalance, of 32 bytes.
unfoldable pub unpack_balance : List ℕ → ℕ
unpack_balance val = be_value (take 16 (drop 16 val))
