-- ===== src/Dataset/Writer.antt =====
-- writer.go: DatasetWriter and its segment writer.
use smaran.Prelude.{
  ℕ, ◌+◌, ◌%◌, ◌^◌, List, [], ◌∷◌, ◌++◌, length, Option, some, none, Bool, true, false,
}
use smaran.Prelude.{if◌then◌else◌, not, ltb, ◌==◌, ◌||◌, replicate}
use smaran.Bytes.{le_bytes}
use smaran.Dataset.{Entry, SegmentName, segment_bounds, FileSystem, Varint, dat, idx}

-- `written` is the offset of the dat file behind the last flush, and `stuck` the error that a
-- bufio.Writer keeps from a failed flush; `closed` says that close was called.
pub record SegmentWriter : Type 0 where
  pub base : ℕ
  pub end : ℕ
  pub next_block : ℕ
  pub written : ℕ
  pub stuck : Bool
  pub closed : Bool

pub data WriteError : Type 0 where
  out_of_range : WriteError
  non_sequential : WriteError
  disk : WriteError

abbrev pub dat_of : SegmentWriter → SegmentName
dat_of sw = record { base = sw.base; end = sw.end; ext = dat }

abbrev pub idx_of : SegmentWriter → SegmentName
idx_of sw = record { base = sw.base; end = sw.end; ext = idx }

-- The address, the length of the balance and the balance.
unfoldable pub entry_bytes : Varint → Entry → List ℕ
entry_bytes v e = e.address ++ (v.put_uvarint (length e.balance % 2 ^ 64) ++ e.balance)

unfoldable pub entries_bytes : Varint → List Entry → List ℕ
unfolding entry_bytes
entries_bytes v [] = []
entries_bytes v (e ∷ es) = entry_bytes v e ++ entries_bytes v es

-- What appendBlock puts into the buffer.
unfoldable pub block_bytes : Varint → List Entry → List ℕ
unfolding entries_bytes
block_bytes v es = le_bytes 4 (length es % 2 ^ 32) ++ entries_bytes v es

-- dw.cur, where it is the segment that starts at `base`.
abbrev pub kept_writer : ℕ → Option SegmentWriter → Option SegmentWriter
kept_writer base none = none
kept_writer base (some sw) = if sw.base == base then some sw else none

-- Whether the old segment refuses to be closed.
abbrev pub blocked : Option SegmentWriter → Bool
blocked none = false
blocked (some sw) = sw.stuck

-- The old segment after close, which AppendBlock keeps where the new one cannot be opened.
abbrev pub closed_writer : Option SegmentWriter → Option SegmentWriter
closed_writer none = none
closed_writer (some sw) = some (record sw { closed = true })

module _ (fs : FileSystem) where
  -- openSegmentWriter; no writer is an error.
  unfoldable pub open_segment_writer : ℕ → ℕ → fs.Disk → Option SegmentWriter × fs.Disk
  open_segment_writer base end d =
      let sw : SegmentWriter = record {
        base = base;
        end = end;
        next_block = base;
        written = 0;
        stuck = false;
        closed = false;
      } in
      let (made, d1) = fs.create (dat_of sw) d in
      let (indexed, d2) = fs.create (idx_of sw) d1 in
      let (zeroed, d3) = fs.write (idx_of sw) (replicate 8 0) d2 in
      if not made
      then (none, d1)
      else if not indexed
      then (none, d2)
      else if not zeroed
      then (none, d3)
      else (some sw, d3)

  -- appendBlock; `none` is a nil error. A bufio.Writer that is stuck refuses each write, and on a
  -- closed file the flush fails.
  unfoldable pub append_block :
      Varint
      → ℕ
      → List Entry
      → SegmentWriter
      → fs.Disk
      → Option WriteError × SegmentWriter × fs.Disk
  unfolding block_bytes
  append_block v block es sw d =
      let bytes = block_bytes v es in
      let (flushed, d1) = fs.write (dat_of sw) bytes d in
      let end_offset = sw.written + length bytes in
      let (indexed, d2) = fs.write (idx_of sw) (le_bytes 8 (end_offset % 2 ^ 64)) d1 in
      if ltb block sw.base || ltb sw.end block
      then (some out_of_range, sw, d)
      else if not (block == sw.next_block)
      then (some non_sequential, sw, d)
      else if sw.stuck || sw.closed
      then (some disk, record sw { stuck = true }, d)
      else if not flushed
      then (some disk, record sw { stuck = true }, d1)
      else if not indexed
      then (some disk, record sw { written = end_offset }, d2)
      else (none, record sw { written = end_offset; next_block = (sw.next_block + 1) % 2 ^ 32 }, d2)

  -- The end of AppendBlock, with the writer that is now `cur`.
  unfoldable pub append_to :
      Varint
      → ℕ
      → List Entry
      → SegmentWriter
      → fs.Disk
      → Option WriteError × Option SegmentWriter × fs.Disk
  unfolding append_block
  append_to v block es sw d =
      let (error, sw', d') = append_block v block es sw d in (error, some sw', d')

  -- AppendBlock of DatasetWriter, whose `cur` is the open segment. A segment writer that is stuck
  -- cannot be closed.
  unfoldable pub append :
      Varint
      → ℕ
      → ℕ
      → List Entry
      → Option SegmentWriter
      → fs.Disk
      → Option WriteError × Option SegmentWriter × fs.Disk
  unfolding append_to open_segment_writer
  append v size block es cur d =
      let base = (segment_bounds block size).0 in
      let end = (segment_bounds block size).1 in
      let (opened, d1) = open_segment_writer base end d in
      elim (kept_writer base cur) [
        | some sw ↦ append_to v block es sw d
        | none ↦ if blocked cur then (some disk, cur, d) else elim opened [
          | none ↦ (some disk, closed_writer cur, d1)
          | some sw ↦ append_to v block es sw d1
        ]
      ]

  -- A run of AppendBlock with the blocks from `block` on, which ends at the first error.
  unfoldable pub append_all :
      Varint
      → ℕ
      → List (List Entry)
      → SegmentWriter
      → fs.Disk
      → Option WriteError × SegmentWriter × fs.Disk
  unfolding append_block
  append_all v block [] sw d = (none, sw, d)
  append_all v block (es ∷ rest) sw d =
      let (error, sw1, d1) = append_block v block es sw d in
      let (error2, sw2, d2) = append_all v (block + 1) rest sw1 d1 in
      elim error [ some e ↦ (some e, sw1, d1) | none ↦ (error2, sw2, d2) ]
