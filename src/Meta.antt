-- ===== src/Meta.antt =====
-- internal/merkle/meta/meta.go: the metadata of the Merkle baseline in a key-value database.
-- The database of go-ethereum is a parameter; a root is its 32 bytes.
pub mod Laws
mod Runs
use smaran.Prelude.{
  ℕ, ◌≡◌, Bool, false, Option, some, none, List, [], ◌∷◌, ◌++◌, length, ◌==◌, bytes_eq,
  if◌then◌else◌,
}
use mathlib.Core.Option
use smaran.Bytes.{be_bytes, be_value}

-- ethdb's Put, Get and Has, and common.BytesToHash, with their documented laws.
pub record Database : Type 1 where
  pub Store : Type 0
  -- `none` is an error.
  pub put : Store → List ℕ → List ℕ → Option Store
  pub get : Store → List ℕ → Option (List ℕ)
  pub has : Store → List ℕ → Option Bool
  pub bytes_to_hash : List ℕ → List ℕ
  pub get-put :
      (s t : Store) (k v j : List ℕ)
      → put s k v ≡ some t
      → get t j ≡ (if bytes_eq k j then some v else get s j)
  pub bytes_to_hash_whole : (v : List ℕ) → length v ≡ 32 → bytes_to_hash v ≡ v

-- "meta:root:", "meta:last" and "meta:start".
abbrev pub prefix_root : List ℕ
prefix_root = 109 ∷ 101 ∷ 116 ∷ 97 ∷ 58 ∷ 114 ∷ 111 ∷ 111 ∷ 116 ∷ 58 ∷ []

abbrev pub key_last : List ℕ
key_last = 109 ∷ 101 ∷ 116 ∷ 97 ∷ 58 ∷ 108 ∷ 97 ∷ 115 ∷ 116 ∷ []

abbrev pub key_start : List ℕ
key_start = 109 ∷ 101 ∷ 116 ∷ 97 ∷ 58 ∷ 115 ∷ 116 ∷ 97 ∷ 114 ∷ 116 ∷ []

unfoldable pub root_key : ℕ → List ℕ
root_key block = prefix_root ++ be_bytes 8 block

unfoldable pub encode_u64 : ℕ → List ℕ
encode_u64 v = be_bytes 8 v

-- `none` is the error "expected 8 bytes".
unfoldable pub decode_u64 : List ℕ → Option ℕ
decode_u64 b = if length b == 8 then some (be_value b) else none

module _ (db : Database) where
  unfoldable pub put_root : db.Store → ℕ → List ℕ → Option db.Store
  unfolding root_key
  put_root s block root = db.put s (root_key block) root

  unfoldable pub get_root : db.Store → ℕ → Option (List ℕ)
  unfolding root_key
  get_root s block = Option.map db.bytes_to_hash (db.get s (root_key block))

  unfoldable pub put_last : db.Store → ℕ → Option db.Store
  unfolding encode_u64
  put_last s block = db.put s key_last (encode_u64 block)

  unfoldable pub get_last : db.Store → Option ℕ
  unfolding decode_u64
  get_last s = Option.bind (db.get s key_last) decode_u64

  -- The error of Has is dropped, and its Boolean is then false.
  unfoldable pub has_last : db.Store → Bool
  has_last s = elim (db.has s key_last) [ none ↦ false | some b ↦ b ]

  unfoldable pub put_start : db.Store → ℕ → Option db.Store
  unfolding encode_u64
  put_start s block = db.put s key_start (encode_u64 block)

  unfoldable pub get_start : db.Store → Option ℕ
  unfolding decode_u64
  get_start s = Option.bind (db.get s key_start) decode_u64
