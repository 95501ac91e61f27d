-- ===== src/Verkle/Ingest/Entries.antt =====
-- The entries of a block as changes of a map from tree keys to values.
use smaran.Prelude.{ℕ, ◌^◌, ◌<◌, ◌≡◌, refl, arith, false, leb, ◌==◌, Bool-cases, inl, inr}
use smaran.Prelude.{List, [], ◌∷◌, length, All, Map, Option, some, if◌then◌else◌, value_or, take}
use smaran.Bytes.{be_value}
use smaran.Dataset.{Entry}
use smaran.Keys.{
  GoVerkle, get_tree_key, address_20_to_32, basic_data_leaf_key, pos, packed, pack_basic_data,
  Packed, overflow, negative,
}
use smaran.Keys.Cache.{IsCache, get_tree_key_for_basic_data-IsCache}
use smaran.Keys.RoundTrip.{unpack-pack_basic_data}
use smaran.Verkle.{PointCodec, VerkleNode}
use smaran.Verkle.Trie.{Resolver}
use smaran.Verkle.Trie.Refines.{
  Change, put, remove, StandsFor, insert-StandsFor, delete-StandsFor, map_run, map_step,
}
use smaran.Verkle.Ingest.{BlockState, done, set_balance, apply_entry, apply_entries, add_stem}

-- An address of 20 bytes, and a balance of at most 128 bits.
abbrev pub Fits : Entry → Type 0
Fits e = (length e.address ≡ 20) × (be_value e.balance < 2 ^ 128)

abbrev packed_bytes : Packed → List ℕ
packed_bytes (packed val) = val
packed_bytes overflow = []
packed_bytes negative = []

-- What a balance does under its key.
unfoldable pub balance_change : List ℕ → ℕ → Change
balance_change key n =
    if n == 0 then remove key else put key (packed_bytes (pack_basic_data (some (pos n))))

module _ (gv : GoVerkle) where
  unfoldable pub account_key : List ℕ → List ℕ
  account_key addr = value_or [] (get_tree_key gv (address_20_to_32 addr) 0 basic_data_leaf_key)

  unfoldable pub change_of : Entry → Change
  unfolding account_key balance_change
  change_of e = balance_change (account_key e.address) (be_value e.balance)

  unfoldable pub changes_of : List Entry → List Change
  unfolding change_of
  changes_of [] = []
  changes_of (e ∷ es) = change_of e ∷ changes_of es

module _ (pc : PointCodec) (gv : GoVerkle) (resolver : Option Resolver) where
  set_balance-StandsFor :
      (key : List ℕ) (n : ℕ) (root : VerkleNode pc.crypto.Point) (m : Map (List ℕ))
      → length key ≡ 32
      → n < 2 ^ 128
      → StandsFor pc resolver root m
      → (root' : VerkleNode pc.crypto.Point) × (set_balance pc gv resolver key n root ≡ done root')
        × StandsFor pc resolver root' (map_step (balance_change key n) m)
  unfolding set_balance balance_change
  set_balance-StandsFor key n root m len fits h = elim (Bool-cases (n == 0)) [
    | inl e ↦
        let (root', run, stands) = delete-StandsFor pc resolver key root m len h in
        (root', rw (e, run) refl, rw e stands)
    | inr e ↦
        let (val, made, _, _, _) = unpack-pack_basic_data n fits in
        let small : leb (2 ^ 128) n ≡ false = ground arith in
        let (root', run, stands) = insert-StandsFor pc resolver key val root m len h in
        (root', rw (e, small, made, run) refl, rw (e, made) stands)
  ]

  -- One entry.
  pub apply_entry-StandsFor :
      (e : Entry) (st : BlockState pc gv) (m : Map (List ℕ))
      → Fits e
      → IsCache gv st.cache
      → StandsFor pc resolver st.root m
      → (st' : BlockState pc gv) × (apply_entry pc gv resolver e st ≡ done st')
        × IsCache gv st'.cache
        × StandsFor pc resolver st'.root (map_step (change_of gv e) m)
  unfolding apply_entry change_of account_key
  apply_entry-StandsFor e st m (len, fits) right h =
      let (key, cache, hit, at, long, right') =
        get_tree_key_for_basic_data-IsCache gv st.cache e.address len right in
      let (root, run, stands) =
        set_balance-StandsFor key (be_value e.balance) st.root m long fits h in
      (
        record { root = root; cache = cache; stems = add_stem (take 31 key) st.stems },
        rw (apply_entry, hit, run) refl,
        right',
        rw at stands,
      )

  -- For addresses of 20 bytes and balances of at most 128 bits, a cache that holds only right keys and a
  -- root that stands for a map: the loop over the entries ends without an error, with such a cache and a
  -- root that stands for the map changed by each entry in turn, where a balance of zero deletes.
  pub apply_entries-StandsFor :
      (es : List Entry) (st : BlockState pc gv) (m : Map (List ℕ))
      → All Fits es
      → IsCache gv st.cache
      → StandsFor pc resolver st.root m
      → (st' : BlockState pc gv) × (apply_entries pc gv resolver es st ≡ done st')
        × IsCache gv st'.cache
        × StandsFor pc resolver st'.root (map_run (changes_of gv es) m)
  unfolding apply_entries changes_of map_run
  apply_entries-StandsFor [] st m fits right h = (st, refl, right, h)
  apply_entries-StandsFor (e ∷ es) st m (one, more) right h =
      let (st1, run, right1, h1) = apply_entry-StandsFor e st m one right h in
      let (st2, runs, right2, h2) =
        apply_entries-StandsFor es st1 (map_step (change_of gv e) m) more right1 h1 in
      (st2, rw (apply_entries, run, runs) refl, right2, h2)
