-- ===== src/Verkle/Ingest/Loop.antt =====
-- Run: where it starts, and the blocks of the dataset one after the other. The configuration is given by its
-- fields; the logging, and opening and closing the files, are left out.
use smaran.Prelude.{
  ℕ, ◌+◌, ◌-◌, ◌%◌, ◌^◌, Bool, true, false, Option, some, none, List, take, length, Map,
}
use smaran.Prelude.{ltb, ◌==◌, not, if◌then◌else◌}
use smaran.Bytes.{be_value, be_bytes}
use smaran.Dataset.{Entry, FileSystem, Varint}
use smaran.Dataset.Iterate.{Fault, iterate_range}
use smaran.Keys.{GoVerkle}
use smaran.Meta.{key_last, key_start}
use smaran.Verkle.{PointCodec, VerkleNode, new_internal_node}
use smaran.Verkle.Commit.{FieldSub}
use smaran.Verkle.Store.{OrderedStore, load_tree, block_key}
use smaran.Verkle.Ingest.{BatchWriter, IngestState, Progress, done, stopped, ingest_block}

abbrev pub segment_size : ℕ
segment_size = 100000

-- GetLastProcessed and GetStartBlock on what is stored.
unfoldable pub stored_block : Option (List ℕ) → Option ℕ
stored_block none = none
stored_block (some val) = if ltb (length val) 8 then none else some (be_value (take 8 val))

abbrev pub get_last_processed : (s : OrderedStore) → s.Db → Option ℕ
get_last_processed s db = stored_block (s.fetch db key_last)

abbrev pub get_start_block : (s : OrderedStore) → s.Db → Option ℕ
get_start_block s db = stored_block (s.fetch db key_start)

-- The first block: behind the last one that was processed, where that is further on.
unfoldable pub resume_start : ℕ → Option ℕ → ℕ
resume_start start none = start
resume_start start (some last) =
    let resume = (last + 1) % 2 ^ 64 in if ltb start resume then resume else start

unfoldable pub load_or_create_root :
    (pc : PointCodec) (s : OrderedStore) → s.Db → ℕ → VerkleNode pc.crypto.Point
unfolding load_tree new_internal_node
load_or_create_root pc s db start =
    let fresh = new_internal_node pc.crypto 0 in
    if ltb 0 start
    then elim (s.fetch db (block_key (start - 1))) [
      | none ↦ fresh
      | some commitment ↦ elim (load_tree pc s db (start - 1)) [ none ↦ fresh | some root ↦ root ]
    ]
    else fresh

pub data RunResult : Type 0 where
  completed : RunResult
  nothing_to_do : RunResult
  start_not_set : RunResult
  ended : Fault → RunResult
  not_synced : RunResult

module _ (pc : PointCodec) (f : FieldSub pc.crypto) (gv : GoVerkle) (s : OrderedStore)
    (w : BatchWriter s) where
  abbrev pub reported :
      Progress (IngestState pc f gv s w) → IngestState pc f gv s w → Bool × IngestState pc f gv s w
  reported (done st') st = (true, st')
  reported (stopped e) st = (false, st)

  -- The function that IterateRange calls. An error ends the run; the database is then given as it was
  -- before the block, where the code may have made some of its writes.
  unfoldable pub ingest_callback :
      ℕ → ℕ → List Entry → IngestState pc f gv s w → Bool × IngestState pc f gv s w
  unfolding ingest_block
  ingest_callback flush_every block es st =
      reported (ingest_block pc f gv s w flush_every block es st) st

  -- The start block is set where there is none.
  abbrev pub set_start_block : ℕ → Option ℕ → s.Db → Bool × s.Db
  set_start_block start (some old) db = (true, db)
  set_start_block start none db = w.put key_start (be_bytes 8 start) db

  abbrev pub finished : Option Fault → s.Db → RunResult
  finished (some e) db = ended e
  finished none db = if w.sync db then completed else not_synced

  unfoldable pub run :
      (fs : FileSystem)
      → Varint
      → (start end flush_every : ℕ) → Map (List ℕ)
      → s.Db
      → fs.Disk
      → RunResult × s.Db
  unfolding ingest_callback load_or_create_root resume_start stored_block
  run fs v start end flush_every cache db disk =
      let every = if flush_every == 0 then 1000 else flush_every in
      let from = resume_start start (get_last_processed s db) in
      let (set, db1) = set_start_block start (get_start_block s db) db in
      let first : IngestState pc f gv s w = record {
        root = load_or_create_root pc s db1 from;
        cache = cache;
        db = db1;
        blocks_since_flush = 0;
      } in
      if ltb end from
      then (nothing_to_do, db)
      else if not set
      then (start_not_set, db1)
      else let (fault, _, last) =
          iterate_range fs v (ingest_callback every) segment_size (from % 2 ^ 32) (end % 2 ^ 32)
            none first disk in
        (finished fault last.db, last.db)
