-- ===== src/Verkle/Ingest.antt =====
-- internal/verklekzg/ingest/ingest.go: the blocks of the dataset go into the trie, and its nodes into the store.
-- The store's writes are a parameter, and so are the keys' hashes.
mod Committed
mod Entries
mod Loaded
mod Balances
mod Blocks
mod Loop
mod Resume
mod Runs
use smaran.Prelude.{
  ℕ, ◌+◌, ◌-◌, ◌%◌, ◌^◌, Bool, true, false, Option, some, none, List, [], ◌∷◌, ◌++◌, take, drop,
}
use smaran.Prelude.{ltb, leb, ◌==◌, bytes_eq, ◌||◌, not, if◌then◌else◌, Map, length}
use smaran.Bytes.{be_value, be_bytes}
use mathlib.Core.Option
use smaran.Dataset.{Entry, FileSystem, Varint}
use smaran.Dataset.Reader.{SegmentReader}
use smaran.Dataset.Iterate.{Fault, iterate_range}
use smaran.Keys.{
  GoVerkle, get_tree_key_for_basic_data, pack_basic_data, pos, packed, overflow, negative,
}
use smaran.Meta.{key_last, key_start}
use smaran.Verkle.{PointCodec, VerkleNode, new_internal_node}
use smaran.Verkle.Trie.{Resolver, Answer, ok, key_not_found, failed, panic, insert, delete}
use smaran.Verkle.Commit.{FieldSub, commit}
use smaran.Verkle.Flush.{SerializedNode, batch_serialize}
use smaran.Verkle.Dirty.{serialize_dirty_paths}
use smaran.Verkle.Store.{
  OrderedStore, versioned_node_resolver, save_nodes, save_block_state, load_tree, block_key,
}

-- Put, a batch of puts with its Commit, and Sync; they report whether they succeeded.
pub record BatchWriter (s : OrderedStore) : Type 0 where
  pub put : List ℕ → List ℕ → s.Db → Bool × s.Db
  pub write_batch : List (List ℕ × List ℕ) → s.Db → Bool × s.Db
  pub sync : s.Db → Bool

-- `panicked` is a panic in the key or in the trie.
pub data IngestError : Type 0 where
  balance_overflow pack_failed insert_failed serialize_failed save_failed : IngestError
  flush_failed sync_failed reload_failed panicked : IngestError

pub data Progress {ℓ} (A : Type ℓ) : Type ℓ where
  done : A → Progress A
  stopped : IngestError → Progress A

abbrev pub then_do {ℓ κ} : {A : Type ℓ} {B : Type κ} → Progress A → (A → Progress B) → Progress B
then_do (done a) f = f a
then_do (stopped e) f = stopped e

-- `dirtyStems`, a set, as a list without repetitions.
unfoldable pub has_stem : List ℕ → List (List ℕ) → Bool
has_stem stem [] = false
has_stem stem (x ∷ xs) = bytes_eq x stem || has_stem stem xs

unfoldable pub add_stem : List ℕ → List (List ℕ) → List (List ℕ)
unfolding has_stem
add_stem stem stems = if has_stem stem stems then stems else stems ++ stem ∷ []

module _ (pc : PointCodec) (gv : GoVerkle) where
  abbrev Node : Type 0
  Node = VerkleNode pc.crypto.Point

  -- What the loop over the entries of a block changes.
  pub record BlockState : Type 0 where
    pub root : VerkleNode pc.crypto.Point
    pub cache : Map (List ℕ)
    pub stems : List (List ℕ)

  -- Delete, whose errors are ignored.
  abbrev pub after_delete : Node → Answer (Bool × Node) → Progress Node
  after_delete root (ok (deleted, root')) = done root'
  after_delete root key_not_found = done root
  after_delete root failed = done root
  after_delete root panic = stopped panicked

  abbrev pub after_insert : Answer Node → Progress Node
  after_insert (ok root') = done root'
  after_insert key_not_found = stopped insert_failed
  after_insert failed = stopped insert_failed
  after_insert panic = stopped panicked

  -- The balance `n` goes under the key; a balance of zero deletes it.
  unfoldable pub set_balance : Option Resolver → List ℕ → ℕ → Node → Progress Node
  set_balance resolver key n root =
      if n == 0
      then after_delete root (delete pc resolver 31 root key)
      else if leb (2 ^ 128) n
      then stopped balance_overflow
      else elim (pack_basic_data (some (pos n))) [
        | packed val ↦ after_insert (insert pc resolver 31 root key val)
        | overflow ↦ stopped pack_failed
        | negative ↦ stopped pack_failed
      ]

  -- One round of the loop over the entries.
  unfoldable pub apply_entry : Option Resolver → Entry → BlockState → Progress BlockState
  unfolding set_balance add_stem
  apply_entry resolver e st = elim (get_tree_key_for_basic_data gv st.cache e.address) [
    | none ↦ stopped panicked
    | some (key, cache) ↦ then_do (set_balance resolver key (be_value e.balance) st.root) (λ root.
        done (record { root = root; cache = cache; stems = add_stem (take 31 key) st.stems }))
  ]

  unfoldable pub apply_entries : Option Resolver → List Entry → BlockState → Progress BlockState
  unfolding apply_entry
  apply_entries resolver [] st = done st
  apply_entries resolver (e ∷ es) st =
      then_do (apply_entry resolver e st) (λ st'. apply_entries resolver es st')

-- NodeResolverFn
abbrev pub node_resolver : (s : OrderedStore) → s.Db → Resolver
node_resolver s db = versioned_node_resolver s db (2 ^ 64 - 2)

module _ (pc : PointCodec) (f : FieldSub pc.crypto) (gv : GoVerkle) (s : OrderedStore)
    (w : BatchWriter s) where
  -- What is kept between the blocks.
  pub record IngestState : Type 0 where
    pub root : VerkleNode pc.crypto.Point
    pub cache : Map (List ℕ)
    pub db : s.Db
    pub blocks_since_flush : ℕ

  -- Every node is written, and the root is loaded again.
  unfoldable pub flush : ℕ → IngestState → Progress IngestState
  unfolding save_nodes
  flush block st = elim (batch_serialize pc st.root []) [
    | none ↦ stopped flush_failed
    | some nodes ↦
        let (saved, db) = w.write_batch (save_nodes nodes block) st.db in
        if not saved
        then stopped flush_failed
        else if not (w.sync db)
        then stopped sync_failed
        else elim (load_tree pc s db block) [
          | none ↦ stopped reload_failed
          | some root ↦ done (record st { root = root; db = db; blocks_since_flush = 0 })
        ]
  ]

  -- The part of the callback behind the entries.
  unfoldable pub commit_block : ℕ → ℕ → BlockState pc gv → s.Db → ℕ → Progress IngestState
  unfolding flush serialize_dirty_paths save_block_state
  commit_block flush_every block st db since =
      let root = commit pc f st.root in
      elim (serialize_dirty_paths pc root st.stems) [
        | none ↦ stopped serialize_failed
        | some (nodes, commitment) ↦
            let (saved, db1) = w.write_batch (save_block_state nodes block commitment) db in
            let next : IngestState = record {
              root = root;
              cache = st.cache;
              db = db1;
              blocks_since_flush = since + 1;
            } in
            if not saved
            then stopped save_failed
            else if ltb (since + 1) flush_every
            then done next
            else flush block next
      ]

  -- The callback of IterateRange.
  unfoldable pub ingest_block : ℕ → ℕ → List Entry → IngestState → Progress IngestState
  unfolding commit_block apply_entries
  ingest_block flush_every block es st =
      then_do
        (apply_entries pc gv (some (node_resolver s st.db)) es
          (record { root = st.root; cache = st.cache; stems = [] }))
        (λ bs. commit_block flush_every block bs st.db st.blocks_since_flush)
