-- ===== src/Verkle/Ingest/Blocks.antt =====
-- A whole block: what the trie has afterwards, and the balances that are refused.
use smaran.Prelude.{ℕ, ◌+◌, ◌<◌, ◌≤◌, ◌^◌, ◌≡◌, ◌≢◌, refl, arith, Bool, true, false, leb, ◌==◌}
use smaran.Prelude.{List, [], ◌∷◌, ◌++◌, length, All, Map, Option, some, none, ltb, ltb_of_lt}
use smaran.Bytes.{be_value}
use smaran.Dataset.{Entry}
use smaran.Keys.{GoVerkle}
use smaran.Keys.Cache.{IsCache, get_tree_key_for_basic_data-IsCache}
use smaran.Verkle.{PointCodec, VerkleNode, internal}
use smaran.Verkle.Serialize.{serialize}
use smaran.Verkle.Flush.{SerializedNode}
use smaran.Verkle.Trie.{Resolver}
use smaran.Verkle.Trie.Refines.{StandsFor}
use smaran.Verkle.Commit.{FieldSub, commit}
use smaran.Verkle.Dirty.{serialize_dirty_paths}
use smaran.Verkle.Store.{OrderedStore, save_block_state}
use smaran.Verkle.Ingest.{
  BatchWriter, BlockState, IngestState, Progress, done, stopped, balance_overflow, apply_entry,
  apply_entries, set_balance, commit_block, ingest_block, node_resolver, then_do,
}
use smaran.Verkle.Ingest.Entries.{Fits, account_key, apply_entries-StandsFor}
use smaran.Verkle.Ingest.Loaded.{apply_entries-loaded, read_balance-loaded}
use smaran.Verkle.Ingest.Balances.{read_balance, read_balance-apply_entries}

module _ (pc : PointCodec) (f : FieldSub pc.crypto) where
  -- A root has bytes, so its dirty paths can be written.
  serialize_dirty_paths-some :
      (stems : List (List ℕ)) (root : VerkleNode pc.crypto.Point)
      → (ch : ℕ → VerkleNode pc.crypto.Point) (digest : pc.crypto.Point) (hs : ℕ → ℕ) (d : ℕ)
        (dirty : Bool)
      → root ≡ internal ch digest hs d dirty
      → (x : List SerializedNode × List ℕ) × (serialize_dirty_paths pc (commit pc f root) stems
          ≡ some x)
  unfolding serialize_dirty_paths commit serialize
  serialize_dirty_paths-some stems root ch digest hs d true e = rw e (_, refl)
  serialize_dirty_paths-some stems root ch digest hs d false e = rw e (_, refl)

then_do-then_do {ℓ} :
    {A : Type ℓ} (a : Progress A) (f h g : A → Progress A)
    → ((x : A) → f x ≡ then_do (h x) g)
    → then_do a f ≡ then_do (then_do a h) g
then_do-then_do (done x) f h g e = e x
then_do-then_do (stopped x) f h g e = refl

module _ (pc : PointCodec) (gv : GoVerkle) (resolver : Option Resolver) where
  apply_entry-overflow :
      (e : Entry) (st : BlockState pc gv)
      → length e.address ≡ 20
      → 2 ^ 128 ≤ be_value e.balance
      → IsCache gv st.cache
      → apply_entry pc gv resolver e st ≡ stopped balance_overflow
  unfolding apply_entry set_balance
  apply_entry-overflow e st len large right =
      let (key, cache, hit, _, _, _) =
        get_tree_key_for_basic_data-IsCache gv st.cache e.address len right in
      let positive : (be_value e.balance == 0) ≡ false = ground arith in
      let over : leb (2 ^ 128) (be_value e.balance) ≡ true = ground arith in
      rw (apply_entry, hit, positive, over) refl

  apply_entries-append :
      (xs ys : List Entry) (st : BlockState pc gv)
      → apply_entries pc gv resolver (xs ++ ys) st
        ≡ then_do (apply_entries pc gv resolver xs st) (λ st'. apply_entries pc gv resolver ys st')
  unfolding apply_entries
  apply_entries-append [] ys st = refl
  apply_entries-append (x ∷ xs) ys st =
      then_do-then_do (apply_entry pc gv resolver x st)
        (λ st'. apply_entries pc gv resolver (xs ++ ys) st')
        (λ st'. apply_entries pc gv resolver xs st') (λ st'. apply_entries pc gv resolver ys st')
        (λ st'. apply_entries-append xs ys st')

  -- For a cache that holds only right keys and a root that stands for a map: where the entries before `e` have
  -- addresses of 20 bytes and balances of at most 128 bits, and `e` has such an address and a larger
  -- balance, the loop over the entries stops with the error of the overflow.
  pub apply_entries-overflow :
      (xs : List Entry) (e : Entry) (ys : List Entry) (st : BlockState pc gv) (m : Map (List ℕ))
      → All Fits xs
      → length e.address ≡ 20
      → 2 ^ 128 ≤ be_value e.balance
      → IsCache gv st.cache
      → StandsFor pc resolver st.root m
      → apply_entries pc gv resolver (xs ++ e ∷ ys) st ≡ stopped balance_overflow
  unfolding apply_entries
  apply_entries-overflow xs e ys st m good len large right h =
      let (st', run, right', _) = apply_entries-StandsFor pc gv resolver xs st m good right h in
      rw
        (
          apply_entries-append xs (e ∷ ys) st,
          run,
          apply_entries,
          apply_entry-overflow e st' len large right',
        )
        refl

module _ (pc : PointCodec) (f : FieldSub pc.crypto) (gv : GoVerkle) (s : OrderedStore)
    (w : BatchWriter s) where
  commit_block-run :
      (flush_every block : ℕ) (bs : BlockState pc gv) (db : s.Db) (since : ℕ)
      → (nodes : List SerializedNode) (rc : List ℕ)
      → serialize_dirty_paths pc (commit pc f bs.root) bs.stems ≡ some (nodes, rc)
      → (w.write_batch (save_block_state nodes block rc) db).0 ≡ true
      → since + 1 < flush_every
      → commit_block pc f gv s w flush_every block bs db since
        ≡ done (record {
          root = commit pc f bs.root;
          cache = bs.cache;
          db = (w.write_batch (save_block_state nodes block rc) db).1;
          blocks_since_flush = since + 1;
        })
  unfolding commit_block
  commit_block-run flush_every block bs db since nodes rc written saved early =
      let later : ltb (since + 1) flush_every ≡ true = ltb_of_lt _ _ early in
      rw (commit_block, written, saved, later) refl

  -- For a store that accepts every batch, a state whose cache holds only right keys and whose root stands
  -- for a map without that a node has to be loaded, and entries with addresses of 20 bytes and balances of
  -- at most 128 bits, of which none behind `e` has its tree key: a block before the next full flush is
  -- ingested without an error, one more block counts for the flush, and in the new root, with the database
  -- after the block as the place to load nodes from, the balance of `e` is found for its address.
  pub ingest_block-read_balance :
      (flush_every block : ℕ) (xs : List Entry) (e : Entry) (ys : List Entry)
      (st : IngestState pc f gv s w) (m : Map (List ℕ))
      → ((writes : List (List ℕ × List ℕ)) (db : s.Db) → (w.write_batch writes db).0 ≡ true)
      → st.blocks_since_flush + 1 < flush_every
      → All Fits (xs ++ e ∷ ys)
      → All (λ y. account_key gv y.address ≢ account_key gv e.address) ys
      → IsCache gv st.cache
      → StandsFor pc none st.root m
      → (st' : IngestState pc f gv s w) × (ingest_block pc f gv s w flush_every block
            (xs ++ e ∷ ys)
            st
          ≡ done st')
        × (st'.blocks_since_flush ≡ st.blocks_since_flush + 1)
        × (read_balance pc gv (some (node_resolver s st'.db)) st'.root e.address
            ≡ some (be_value e.balance))
  unfolding ingest_block
  ingest_block-read_balance flush_every block xs e ys st m accepts early good others right h =
      let start : BlockState pc gv = record { root = st.root; cache = st.cache; stems = [] } in
      let (bs, run, (ch, digest, hs, d, dirty, shape, _, _), found) =
        read_balance-apply_entries pc f gv none xs e ys start m good others right h in
      let same =
        apply_entries-loaded pc gv (some (node_resolver s st.db)) (xs ++ e ∷ ys) start m good right
          h in
      let ((nodes, rc), written) =
        serialize_dirty_paths-some pc f bs.stems bs.root ch digest hs d dirty shape in
      let saved = accepts (save_block_state nodes block rc) st.db in
      let db = (w.write_batch (save_block_state nodes block rc) st.db).1 in
      (
        record {
          root = commit pc f bs.root;
          cache = bs.cache;
          db = db;
          blocks_since_flush = st.blocks_since_flush + 1;
        },
        rw (ingest_block, same, run)
            (commit_block-run flush_every block bs st.db st.blocks_since_flush nodes rc written
              saved early),
        refl,
        read_balance-loaded pc gv (some (node_resolver s db)) (commit pc f bs.root) e.address
            (be_value e.balance) found,
      )
