-- ===== src/Dataset/Iterate.antt =====
-- IterateRange of reader.go, with the callback's state made explicit.
use smaran.Prelude.{
  ℕ, zero, suc, ◌+◌, ◌-◌, ◌%◌, ◌^◌, List, Option, some, none, Bool, ltb, leb, ◌&&◌,
}
use smaran.Prelude.{if◌then◌else◌}
use smaran.Dataset.{Entry, FileSystem, Varint, segment_bounds}
use smaran.Dataset.Reader.{
  Outcome, ok, failed, panicked, ReadError, SegmentReader, get_block, ensure_segment,
  open_segment_reader,
}

-- Why a loop ended early; `unfinished` says that the fuel ran out.
pub data Fault : Type 0 where
  read : ReadError → Fault
  callback : Fault
  panic : Fault
  unfinished : Fault

-- The least of the end of the segment, the last number asked for and the last block written.
unfoldable pub seg_stop_of : SegmentReader → ℕ → ℕ
seg_stop_of sr b =
    let stop = if ltb b sr.end then b else sr.end in
    if ltb sr.last_written stop then sr.last_written else stop

-- Where the requested range goes past what is built, on to the next segment.
unfoldable pub next_start : SegmentReader → ℕ → ℕ → ℕ → ℕ
next_start sr b stop n = if leb n b && ltb stop sr.end then (sr.end + 1) % 2 ^ 32 else n

-- `fn` takes the block number, the entries and its state, and says whether it returned nil.
module _ (fs : FileSystem) (v : Varint) {T : Type 0} (fn : ℕ → List Entry → T → Bool × T) where
  -- Whether the callback accepts a block that was read, with its state then.
  unfoldable pub handle : ℕ → Outcome (List Entry) → T → Option Fault × T
  handle n (ok es) t = let (good, t1) = fn n es t in (if good then none else some callback, t1)
  handle n (failed e) t = (some (read e), t)
  handle n panicked t = (some panic, t)

  -- The inner loop, with the number that it ends at.
  unfoldable pub visit_blocks : ℕ → SegmentReader → ℕ → ℕ → T → fs.Disk → Option Fault × ℕ × T
  visit_blocks zero sr stop n t d = (some unfinished, n, t)
  visit_blocks (suc fuel) sr stop n t d =
      let (fault, t1) = handle n (get_block fs v sr n d) t in
      let rest = visit_blocks fuel sr stop ((n + 1) % 2 ^ 32) t1 d in
      if ltb stop n then (none, n, t) else elim fault [ some e ↦ (some e, n, t1) | none ↦ rest ]

  unfoldable pub iterate_loop :
      ℕ → ℕ → ℕ → ℕ → Option SegmentReader → T → fs.Disk → Option Fault × Option SegmentReader × T
  iterate_loop zero size b n cur t d = (some unfinished, cur, t)
  iterate_loop (suc fuel) size b n cur t d =
      if ltb b n
      then (none, cur, t)
      else let (opened, cur1) = ensure_segment fs size n cur d in
        elim opened [
          | failed e ↦ (some (read e), cur1, t)
          | panicked ↦ (some panic, cur1, t)
          | ok sr ↦
              let stop = seg_stop_of sr b in
              let (fault, m, t1) = visit_blocks (stop + 1 - n + 1) sr stop n t d in
              elim fault [
                | some e ↦ (some e, cur1, t1)
                | none ↦ iterate_loop fuel size b (next_start sr b stop m) cur1 t1 d
              ]
        ]

  unfoldable pub iterate_range :
      ℕ → ℕ → ℕ → Option SegmentReader → T → fs.Disk → Option Fault × Option SegmentReader × T
  unfolding iterate_loop
  iterate_range size a b cur t d =
      if ltb b a then (none, cur, t) else iterate_loop (b - a + 2) size b a cur t d

  -- One block at a time: open its segment, pass over it if it is not built, and read it otherwise.
  unfoldable pub each_block : ℕ → ℕ → ℕ → T → fs.Disk → Option Fault × T
  each_block size zero n t d = (none, t)
  each_block size (suc k) n t d =
      let bounds = segment_bounds n size in
      elim (open_segment_reader fs bounds.0 bounds.1 d) [
        | failed e ↦ (some (read e), t)
        | panicked ↦ (some panic, t)
        | ok sr ↦
            let (fault, t1) = handle n (get_block fs v sr n d) t in
            let rest = each_block size k (n + 1) t1 d in
            if ltb sr.last_written n
            then each_block size k (n + 1) t d
            else elim fault [ some e ↦ (some e, t1) | none ↦ rest ]
      ]
