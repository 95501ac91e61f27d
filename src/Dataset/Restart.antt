-- ===== src/Dataset/Restart.antt =====
-- A new writer in the middle of a segment.
use smaran.Prelude.{ℕ, ◌+◌, ◌^◌, ◌<◌, ◌≤◌, ◌≡◌, ◌≢◌, refl, sym, ap, ◌∙◌, arith, false, ltb, ◌==◌}
use smaran.Prelude.{List, [], some, none}
use smaran.Dataset.{Entry, Varint, FileSystem, FileLaws, segment_bounds}
use smaran.Dataset.Writer.{
  SegmentWriter, append, append_to, append_block, open_segment_writer, dat_of, non_sequential,
}
use smaran.Dataset.Bounds.{base_le, block_lt, end_eq}
use smaran.Dataset.Segment.{data_bytes}
use smaran.Dataset.RoundTrip.{fresh, fresh-Holds, open_segment_writer-some}

-- A block other than the first of its segment is refused by a new segment.
append_block-late :
    (fs : FileSystem) (v : Varint) (block base end : ℕ) (es : List Entry) (d : fs.Disk)
    → base < block
    → block ≤ end
    → append_block fs v block es (fresh base end) d ≡ (some non_sequential, fresh base end, d)
unfolding append_block
append_block-late fs v block base end es d low high =
    let a : ltb block base ≡ false = ground arith in
    let b : ltb end block ≡ false = ground arith in
    let c : (block == base) ≡ false = ground arith in rw (a, b, c) refl

data_bytes-nil : (v : Varint) → data_bytes v [] ≡ []
unfolding data_bytes
data_bytes-nil v = refl

-- On a file system with these laws, for a positive segment size and a block whose segment ends before
-- 2 ^ 32 and that is not the first of it: where the files can be created, AppendBlock of a writer
-- with no open segment returns the error of a block out of order, and leaves the dat file of the
-- segment empty, whatever it held.
pub append-restart :
    (fs : FileSystem) (v : Varint) (size block : ℕ) (es : List Entry) (d : fs.Disk)
    (sw : SegmentWriter)
    → FileLaws fs
    → 0 < size
    → (segment_bounds block size).0 + size ≤ 2 ^ 32
    → block ≢ (segment_bounds block size).0
    → (open_segment_writer fs (segment_bounds block size).0 (segment_bounds block size).1 d).0
      ≡ some sw
    → ((append fs v size block es none d).0 ≡ some non_sequential)
      × (fs.read (dat_of sw) (append fs v size block es none d).2 ≡ some [])
unfolding append append_to
append-restart fs v size block es d sw laws pos fits other opens =
    let base = (segment_bounds block size).0 in
    let end = (segment_bounds block size).1 in
    let (made, indexed, zeroed, run, same) = open_segment_writer-some fs base end d sw opens in
    let first = base_le block size in
    let room = block_lt block size pos in
    let last = end_eq block size pos fits in
    let holds = fresh-Holds fs v base end d laws (omega arith) made indexed zeroed in
    let late =
      append_block-late fs v block base end es (open_segment_writer fs base end d).1 (omega arith)
        (omega arith) in
    let there : (open_segment_writer fs base end d).0 ≡ some (fresh base end) =
      opens ∙ ap some (sym same) in
    let whole : append fs v size block es none d
        ≡ (some non_sequential, some (fresh base end), (open_segment_writer fs base end d).1) =
      rw (append, there, late) refl in
    rw (whole, run, ← same) (refl, holds.content ∙ ap some (data_bytes-nil v))
