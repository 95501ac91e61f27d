-- ===== src/Dataset/Runs.antt =====
-- Concrete runs of the dataset on files in memory.
use smaran.Prelude.{ℕ, ◌≡◌, ◌+◌, refl, arith, ◌≤◌, ◌↔◌, Bool, List, [], ◌∷◌, ◌++◌, none, some}
use smaran.Prelude.{replicate, ltb, ◌^◌}
use smaran.Bytes.{le_bytes, le_value}
use smaran.Dataset.{Entry, segment_bounds}
use smaran.Dataset.Writer.{
  open_segment_writer, append_block, append_all, append, append_to, block_bytes, non_sequential,
  dat_of,
}
use smaran.Dataset.Reader.{
  ok, panicked, failed, not_built, dataset_get_block, ensure_segment, get_block, read_between,
  open_segment_reader, read_offsets, last_written_of, decode_block, decode_entries, decode_entry,
  decode_balance, unexpected_eof,
}
use smaran.Dataset.Iterate.{Fault, handle, iterate_range, each_block}
use smaran.Dataset.Decode.{IsEntry}
use smaran.Dataset.Segment.{data_bytes, Holds, append_block-Holds}
use smaran.Dataset.RoundTrip.{fresh, fresh-Holds}
use smaran.Dataset.Restart.{append-restart}
use smaran.Dataset.Accepted.{dataset_get_block-append_all}
use smaran.Dataset.Bounds.{segment_bounds_iff}
use smaran.Dataset.Whole.{iterate_range-each_block}
use smaran.Dataset.Leb128.{leb128}
use smaran.Dataset.Sample.{memory, memory_laws, memory-Accepts, blank, alice, bob}

-- The disk on which a segment from block 10 to 19 is opened.
abbrev start : memory.Disk
start = (open_segment_writer memory 10 19 blank).1

start_opened : (open_segment_writer memory 10 19 blank).0 ≡ some (fresh 10 19)
unfolding open_segment_writer
start_opened = refl

segment_bounds_iff_example : ((10 ≤ 15) × (15 ≤ 19)) ↔ (segment_bounds 15 10 ≡ segment_bounds 12 10)
unfolding segment_bounds
segment_bounds_iff_example = segment_bounds_iff 12 15 10 (omega arith) (omega arith)

alice-IsEntry : IsEntry alice
alice-IsEntry = record { address_length = refl; balance_length = omega arith }

bob-IsEntry : IsEntry bob
bob-IsEntry = record { address_length = refl; balance_length = omega arith }

start-Holds : Holds memory leb128 (fresh 10 19) start []
unfolding open_segment_writer
start-Holds = fresh-Holds memory leb128 10 19 blank memory_laws (omega arith) refl refl refl

append_block-Holds_example :
    (10 ≡ 10 + 0)
    × (10 ≤ 19)
    × Holds memory leb128
        (append_block memory leb128 10 (alice ∷ []) (fresh 10 19) start).1
        (append_block memory leb128 10 (alice ∷ []) (fresh 10 19) start).2
        ((alice ∷ []) ∷ [])
unfolding append_block open_segment_writer block_bytes le_bytes
append_block-Holds_example =
    append_block-Holds memory memory_laws leb128 10 (alice ∷ []) (fresh 10 19) start []
      (omega arith) (omega arith) start-Holds refl

dataset_get_block-append_all_example :
    ((open_segment_writer memory 10 19 blank).0 ≡ some (fresh 10 19))
    × ((append_all memory leb128 10
          ([] ∷ (alice ∷ bob ∷ []) ∷ (bob ∷ []) ∷ [])
          (fresh 10 19)
          start).0
        ≡ none)
    × ((dataset_get_block memory leb128 10 11 none
          (append_all memory leb128 10
            ([] ∷ (alice ∷ bob ∷ []) ∷ (bob ∷ []) ∷ [])
            (fresh 10 19)
            start).2).0
        ≡ ok (alice ∷ bob ∷ []))
unfolding segment_bounds open_segment_writer block_bytes le_bytes data_bytes
dataset_get_block-append_all_example =
    dataset_get_block-append_all memory leb128 10 10 19 ([] ∷ []) (alice ∷ bob ∷ [])
      ((bob ∷ []) ∷ []) blank memory_laws memory-Accepts refl (omega arith) (omega arith)
      (omega arith) (alice-IsEntry, (bob-IsEntry, tt)) (omega arith)

-- Three blocks of a segment, and the first of the next.
abbrev two_segments : memory.Disk
two_segments =
    let first =
      (append_all memory leb128 10 ([] ∷ (alice ∷ bob ∷ []) ∷ (bob ∷ []) ∷ []) (fresh 10 19)
        start).2 in
    (append memory leb128 10 20 (alice ∷ []) none first).2

-- A callback that notes the numbers, and refuses 20.
abbrev note_block : ℕ → List Entry → List ℕ → Bool × List ℕ
note_block n es seen = (ltb n 20, seen ++ n ∷ [])

iterate_range-each_block_example :
    (
      (iterate_range memory leb128 note_block 10 11 25 none [] two_segments).0,
      (iterate_range memory leb128 note_block 10 11 25 none [] two_segments).2,
    )
    ≡ each_block memory leb128 note_block 10 15 11 [] two_segments
iterate_range-each_block_example =
    iterate_range-each_block memory leb128 note_block 10 11 25 [] two_segments (omega arith)
      (omega arith)

-- The blocks that are not built are passed over.
passes_over :
    each_block memory leb128 note_block 10 15 11 [] two_segments
    ≡ (some Fault.callback, 11 ∷ 12 ∷ 20 ∷ [])
unfolding each_block handle get_block read_between open_segment_reader read_offsets last_written_of
    decode_block decode_entries decode_entry decode_balance le_value segment_bounds
    open_segment_writer append_all append append_to append_block block_bytes le_bytes
passes_over = refl

append-restart_example :
    ((append memory leb128 10 12 (alice ∷ []) none two_segments).0 ≡ some non_sequential)
    × (memory.read
          (dat_of (fresh 10 19))
          (append memory leb128 10 12 (alice ∷ []) none two_segments).2
        ≡ some [])
unfolding segment_bounds open_segment_writer
append-restart_example =
    append-restart memory leb128 10 12 (alice ∷ []) two_segments (fresh 10 19) memory_laws
      (omega arith) (omega arith) (omega arith) refl

-- A segment without blocks from 0 on: its last block number wraps, and there is no offset behind the
-- first.
first_segment_empty :
    (dataset_get_block memory leb128 10 0 none (open_segment_writer memory 0 9 blank).1).0
    ≡ panicked
unfolding dataset_get_block ensure_segment get_block open_segment_reader read_offsets
    last_written_of segment_bounds open_segment_writer le_value
first_segment_empty = refl

-- Further on such a segment answers that the block is not built.
second_segment_empty : (dataset_get_block memory leb128 10 10 none start).0 ≡ failed not_built
unfolding dataset_get_block ensure_segment get_block open_segment_reader read_offsets
    last_written_of segment_bounds open_segment_writer le_value
second_segment_empty = refl

-- A length of 2 ^ 63 or more panics, where a smaller one that does not fit is an error.
corrupt_length :
    (decode_balance (replicate 40 0) 25 (2 ^ 63) ≡ panicked)
    × (decode_balance (replicate 40 0) 25 16 ≡ failed unexpected_eof)
unfolding decode_balance
corrupt_length = (refl, refl)
