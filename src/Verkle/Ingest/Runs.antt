-- ===== src/Verkle/Ingest/Runs.antt =====
-- A block of three entries, ingested into an empty trie and an empty database.
use smaran.Prelude.{ℕ, ◌+◌, ◌^◌, ◌≡◌, ◌≢◌, ◌≤◌, refl, ap, arith, true, List, [], ◌∷◌, replicate}
use smaran.Prelude.{some, none, All, empty_map, get_or}
use smaran.Bytes.{be_value, be_bytes, le_value, le_bytes, blit}
use smaran.Dataset.{Entry}
use smaran.Dataset.Sample.{alice, bob}
use smaran.Keys.{address_20_to_32, get_tree_key, chunk, tree_index_le}
use smaran.Keys.Cache.{empty_map-IsCache}
use smaran.Keys.Sample.{numbers}
use mathlib.Core.Option
use smaran.Verkle.{new_internal_node}
use smaran.Verkle.Sample.{two_codec, two_points, two_points-FieldSub}
use smaran.Verkle.Store.Entries.{entry_store, fetch_entry}
use smaran.Verkle.Trie.Refines.{new_internal_node-StandsFor}
use smaran.Verkle.Ingest.{
  BatchWriter, BlockState, IngestState, done, stopped, balance_overflow, apply_entries,
  ingest_block, node_resolver,
}
use smaran.Verkle.Ingest.Entries.{Fits, account_key}
use smaran.Verkle.Ingest.Balances.{read_balance}
use smaran.Verkle.Ingest.Blocks.{apply_entries-overflow, ingest_block-read_balance}
use smaran.Verkle.Ingest.Loop.{get_last_processed, resume_start}
use smaran.Verkle.Ingest.Resume.{WriterLaws, after_puts, ingest_block-resume}

abbrev put_all : List (List ℕ × List ℕ) → List (List ℕ × List ℕ) → List (List ℕ × List ℕ)
put_all [] db = db
put_all (w ∷ ws) db = put_all ws (w ∷ db)

abbrev entry_writer : BatchWriter entry_store
entry_writer = record {
  put = λ k v db. (true, (k, v) ∷ db);
  write_batch = λ ws db. (true, put_all ws db);
  sync = λ db. true;
}

fetch-put_all :
    (ws : List (List ℕ × List ℕ)) (db : List (List ℕ × List ℕ)) (k : List ℕ)
    → fetch_entry (put_all ws db) k ≡ after_puts ws k (fetch_entry db k)
unfolding after_puts
fetch-put_all [] db k = refl
fetch-put_all ((j, v) ∷ ws) db k = fetch-put_all ws ((j, v) ∷ db) k

entry_writer-WriterLaws : WriterLaws entry_store entry_writer
unfolding WriterLaws
entry_writer-WriterLaws ws db k h = fetch-put_all ws db k

-- An earlier balance of alice, which her entry replaces; bob's balance is zero.
abbrev early_alice : Entry
early_alice = record { address = replicate 20 1; balance = 9 ∷ [] }

abbrev empty_state : IngestState two_codec two_points-FieldSub numbers entry_store entry_writer
empty_state = record {
  root = new_internal_node two_points 0;
  cache = empty_map;
  db = [];
  blocks_since_flush = 0;
}

three-Fits : All Fits (early_alice ∷ alice ∷ bob ∷ [])
unfolding be_value
three-Fits = ((refl, omega arith), ((refl, omega arith), ((refl, omega arith), tt)))

bob-apart : account_key numbers bob.address ≢ account_key numbers alice.address
unfolding account_key get_tree_key address_20_to_32 chunk tree_index_le le_value le_bytes be_bytes
    blit Option.bind
bob-apart e =
    let wrong : ◌≡◌ {A = ℕ} 4 2 = ap (λ (k : List ℕ). get_or k 16 0) e in absurd (omega arith)

ingest_block-read_balance_example :
    (st' : IngestState two_codec two_points-FieldSub numbers entry_store entry_writer)
    × (ingest_block two_codec two_points-FieldSub numbers entry_store entry_writer 1000 5
          (early_alice ∷ alice ∷ bob ∷ [])
          empty_state
        ≡ done st')
    × (st'.blocks_since_flush ≡ 0 + 1)
    × (read_balance two_codec numbers
          (some (node_resolver entry_store st'.db))
          st'.root
          alice.address
        ≡ some (be_value alice.balance))
ingest_block-read_balance_example =
    ingest_block-read_balance two_codec two_points-FieldSub numbers entry_store entry_writer 1000 5
      (early_alice ∷ []) alice (bob ∷ []) empty_state empty_map (λ ws db. refl) (omega arith)
      three-Fits (bob-apart, tt) (empty_map-IsCache numbers)
      (new_internal_node-StandsFor two_codec none)

-- Block 5, ingested.
ingested :
    (st' : IngestState two_codec two_points-FieldSub numbers entry_store entry_writer)
    × (ingest_block two_codec two_points-FieldSub numbers entry_store entry_writer 1000 5
          (early_alice ∷ alice ∷ bob ∷ [])
          empty_state
        ≡ done st')
ingested =
    let (st', run, _, _) =
      ingest_block-read_balance two_codec two_points-FieldSub numbers entry_store entry_writer 1000
        5 (early_alice ∷ []) alice (bob ∷ []) empty_state empty_map (λ ws db. refl) (omega arith)
        three-Fits (bob-apart, tt) (empty_map-IsCache numbers)
        (new_internal_node-StandsFor two_codec none) in
    (st', run)

ingest_block-resume_example :
    (get_last_processed entry_store ingested.0.db ≡ some 5)
    × (resume_start 1 (get_last_processed entry_store ingested.0.db) ≡ 5 + 1)
ingest_block-resume_example =
    ingest_block-resume two_codec two_points-FieldSub numbers entry_store entry_writer 1000 5 1
      (early_alice ∷ alice ∷ bob ∷ []) empty_state ingested.0 entry_writer-WriterLaws (omega arith)
      (omega arith) ingested.1

-- A balance of 17 bytes.
abbrev too_rich : Entry
too_rich = record { address = replicate 20 3; balance = 1 ∷ replicate 16 0 }

too_rich-large : 2 ^ 128 ≤ be_value too_rich.balance
unfolding be_value
too_rich-large = omega arith

abbrev block_start : BlockState two_codec numbers
block_start = record { root = new_internal_node two_points 0; cache = empty_map; stems = [] }

apply_entries-overflow_example :
    apply_entries two_codec numbers none (alice ∷ too_rich ∷ bob ∷ []) block_start
    ≡ stopped balance_overflow
apply_entries-overflow_example =
    apply_entries-overflow two_codec numbers none (alice ∷ []) too_rich (bob ∷ []) block_start
      empty_map (three-Fits.1.0, tt) refl too_rich-large (empty_map-IsCache numbers)
      (new_internal_node-StandsFor two_codec none)
