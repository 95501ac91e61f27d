-- ===== src/Dataset/RoundTrip.antt =====
-- Blocks that were appended to a segment are read back.
use smaran.Prelude.{ℕ, ◌+◌, ◌^◌, ◌<◌, ◌≤◌, ◌≡◌, refl, sym, ap, ◌∙◌, arith}
use smaran.Prelude.{List, [], ◌∷◌, ◌++◌, length, true, false, All}
use smaran.Prelude.{some, none, length-append, Option-cases, inl, inr, replicate}
use mathlib.Core.List.{append_assoc, append-nil}
use mathlib.Core.Path.{subst}
use smaran.Bytes.{le_bytes}
use smaran.Dataset.{segment_bounds, Entry, Varint, FileSystem, FileLaws}
use smaran.Dataset.Writer.{
  SegmentWriter, dat_of, idx_of, block_bytes, append_block, append_all, open_segment_writer,
}
use smaran.Dataset.Reader.{ok, get_block, ensure_segment, dataset_get_block}
use smaran.Dataset.Decode.{IsEntry}
use smaran.Dataset.Reading.{reader_of, open_segment_reader-Holds, get_block-Holds}
use smaran.Dataset.Segment.{
  Holds, data_bytes, data_bytes-cons, offsets_from, index_bytes, data_bytes-append,
  append_block-Holds, idx-dat,
}

abbrev pub fresh : ℕ → ℕ → SegmentWriter
fresh base end = record {
  base = base;
  end = end;
  next_block = base;
  written = 0;
  stuck = false;
  closed = false;
}

-- The files that openSegmentWriter leaves.
abbrev opened : (fs : FileSystem) → ℕ → ℕ → fs.Disk → fs.Disk
opened fs base end d =
    (fs.write (idx_of (fresh base end)) (replicate 8 0)
      (fs.create (idx_of (fresh base end)) (fs.create (dat_of (fresh base end)) d).1).1).1

pub open_segment_writer-some :
    (fs : FileSystem) (base end : ℕ) (d : fs.Disk) (sw : SegmentWriter)
    → (open_segment_writer fs base end d).0 ≡ some sw
    → ((fs.create (dat_of (fresh base end)) d).0 ≡ true)
      × ((fs.create (idx_of (fresh base end)) (fs.create (dat_of (fresh base end)) d).1).0 ≡ true)
      × ((fs.write
            (idx_of (fresh base end))
            (replicate 8 0)
            (fs.create (idx_of (fresh base end)) (fs.create (dat_of (fresh base end)) d).1).1).0
          ≡ true)
      × (open_segment_writer fs base end d ≡ (some (fresh base end), opened fs base end d))
      × (fresh base end ≡ sw)
unfolding open_segment_writer
open_segment_writer-some fs base end d sw h = ground arith

pub fresh-Holds :
    (fs : FileSystem) (v : Varint) (base end : ℕ) (d : fs.Disk)
    → FileLaws fs
    → base ≤ end + 1
    → (fs.create (dat_of (fresh base end)) d).0 ≡ true
    → (fs.create (idx_of (fresh base end)) (fs.create (dat_of (fresh base end)) d).1).0 ≡ true
    → (fs.write
        (idx_of (fresh base end))
        (replicate 8 0)
        (fs.create (idx_of (fresh base end)) (fs.create (dat_of (fresh base end)) d).1).1).0
      ≡ true
    → Holds fs v (fresh base end) (opened fs base end d) []
unfolding data_bytes index_bytes offsets_from le_bytes
fresh-Holds fs v base end d laws fits made indexed zeroed =
    let sw = fresh base end in
    let d1 = (fs.create (dat_of sw) d).1 in
    let d2 = (fs.create (idx_of sw) d1).1 in
    record {
      content =
          laws.write-others (idx_of sw) (dat_of sw) (replicate 8 0) d2 (idx-dat sw)
          ∙ laws.create-others (idx_of sw) (dat_of sw) d1 (idx-dat sw)
          ∙ laws.read-create (dat_of sw) d made;
      index =
          laws.read-write (idx_of sw) (replicate 8 0) [] d2 zeroed
            (laws.read-create (idx_of sw) d1 indexed);
      next = omega arith;
      inside = omega arith;
      end_offset = refl;
      free = refl;
    }

append_block-bounds :
    (fs : FileSystem) (v : Varint) (block : ℕ) (es : List Entry) (sw : SegmentWriter) (d : fs.Disk)
    → ((append_block fs v block es sw d).1.base ≡ sw.base)
      × ((append_block fs v block es sw d).1.end ≡ sw.end)
unfolding append_block
append_block-bounds fs v block es sw d = (ground arith, ground arith)

-- A run of appendBlock without an error leaves the old and the new blocks.
append_all-Holds :
    (fs : FileSystem) (v : Varint) (block : ℕ) (rest old : List (List Entry)) (sw : SegmentWriter)
    (d : fs.Disk)
    → FileLaws fs
    → sw.end + 1 < 2 ^ 32
    → Holds fs v sw d old
    → length (data_bytes v (old ++ rest)) < 2 ^ 63
    → (append_all fs v block rest sw d).0 ≡ none
    → Holds fs v
        (append_all fs v block rest sw d).1
        (append_all fs v block rest sw d).2
        (old ++ rest)
      × ((append_all fs v block rest sw d).1.base ≡ sw.base)
      × ((append_all fs v block rest sw d).1.end ≡ sw.end)
unfolding append_all
append_all-Holds fs v block [] old sw d laws last holds small h =
    (subst (λ bs. Holds fs v sw d bs) (sym (append-nil old)) holds, refl, refl)
append_all-Holds fs v block (es ∷ rest) old sw d laws last holds small h =
    let (base, end) = append_block-bounds fs v block es sw d in
    let room : sw.written + length (block_bytes v es) < 2 ^ 64 = omega (
      arith,
      holds.end_offset,
      (rw (data_bytes-append v old (es ∷ rest)) at small),
      length-append (data_bytes v old) (data_bytes v (es ∷ rest)),
      ap (λ (l : List ℕ). length l) (data_bytes-cons v es rest),
      length-append (block_bytes v es) (data_bytes v rest),
    ) in
    elim (Option-cases (append_block fs v block es sw d).0) [
      | inl e ↦
          let (_, _, more) = append_block-Holds fs laws v block es sw d old last room holds e in
          let joined : (old ++ es ∷ []) ++ rest ≡ old ++ es ∷ rest =
            append_assoc old (es ∷ []) rest in
          let (all, same, same_end) =
            append_all-Holds fs v (block + 1) rest (old ++ es ∷ [])
              (append_block fs v block es sw d).1 (append_block fs v block es sw d).2 laws
              (omega (arith, end)) more (rw joined small) (rw (append_all, e) at h) in
          rw (append_all, e)
            (
              subst
                  (λ bs.
                    Holds fs v
                      (append_all fs v (block + 1) rest (append_block fs v block es sw d).1
                        (append_block fs v block es sw d).2).1
                      (append_all fs v (block + 1) rest (append_block fs v block es sw d).1
                        (append_block fs v block es sw d).2).2
                      bs)
                  joined all,
              same ∙ base,
              same_end ∙ end,
            )
      | inr (x, e) ↦ let wrong = (rw (append_all, e) at h) in absurd (cc)
    ]

-- A new reader finds the block of its segment.
dataset_get_block-Holds :
    (fs : FileSystem) (v : Varint) (size block : ℕ) (sw : SegmentWriter) (d : fs.Disk)
    (xs : List (List Entry)) (es : List Entry) (ys : List (List Entry))
    → Holds fs v sw d (xs ++ es ∷ ys)
    → block ≡ sw.base + length xs
    → segment_bounds block size ≡ (sw.base, sw.end)
    → sw.end + 1 < 2 ^ 32
    → length (data_bytes v (xs ++ es ∷ ys)) < 2 ^ 63
    → All IsEntry es
    → length es < 2 ^ 32
    → (dataset_get_block fs v size block none d).0 ≡ ok es
unfolding dataset_get_block ensure_segment
dataset_get_block-Holds fs v size block sw d xs es ys holds number bounds last small good few =
    let found = open_segment_reader-Holds fs v sw d (xs ++ es ∷ ys) holds (omega arith) in
    let got = get_block-Holds fs v sw d xs es ys holds last small good few in
    rw (dataset_get_block, ensure_segment, bounds, found)
      (subst (λ n. get_block fs v (reader_of v sw (xs ++ es ∷ ys)) n d ≡ ok es) (sym number) got)

-- On a file system with these laws, for the blocks `xs ++ es ∷ ys` that were appended without an error
-- from the first number on to a segment that was opened without an error and ends before the last
-- number of 32 bits, with entries that fit their types and less than 2 ^ 63 bytes in all: a new reader
-- returns `es` for the number of its block.
pub get_block-append_all :
    (fs : FileSystem) (v : Varint) (size base end : ℕ) (xs : List (List Entry)) (es : List Entry)
    (ys : List (List Entry)) (d : fs.Disk) (sw : SegmentWriter)
    → FileLaws fs
    → segment_bounds (base + length xs) size ≡ (base, end)
    → base ≤ end
    → end + 1 < 2 ^ 32
    → (open_segment_writer fs base end d).0 ≡ some sw
    → (append_all fs v base (xs ++ es ∷ ys) sw (open_segment_writer fs base end d).1).0 ≡ none
    → length (data_bytes v (xs ++ es ∷ ys)) < 2 ^ 63
    → All IsEntry es
    → length es < 2 ^ 32
    → (dataset_get_block fs v size
        (base + length xs)
        none
        (append_all fs v base (xs ++ es ∷ ys) sw (open_segment_writer fs base end d).1).2).0
      ≡ ok es
get_block-append_all fs v size base end xs es ys d sw laws bounds order last open_ok all_ok small
      good few =
    let blocks = xs ++ es ∷ ys in
    let (made, indexed, zeroed, run, same) = open_segment_writer-some fs base end d sw open_ok in
    let start = fresh-Holds fs v base end d laws (omega arith) made indexed zeroed in
    let accepted : (append_all fs v base blocks (fresh base end) (opened fs base end d)).0 ≡ none =
      rw (← same, run) at all_ok in
    let (holds, base_eq, end_eq) =
      append_all-Holds fs v base blocks [] (fresh base end) (opened fs base end d) laws last start
        small accepted in
    let bounds' : segment_bounds (base + length xs) size ≡ (
      (append_all fs v base blocks (fresh base end) (opened fs base end d)).1.base,
      (append_all fs v base blocks (fresh base end) (opened fs base end d)).1.end,
    ) =
      bounds ∙ rw (base_eq, end_eq) refl in
    rw (run, ← same)
      (dataset_get_block-Holds fs v size (base + length xs)
        (append_all fs v base blocks (fresh base end) (opened fs base end d)).1
        (append_all fs v base blocks (fresh base end) (opened fs base end d)).2 xs es ys holds
        (omega (arith, base_eq)) bounds' (omega (arith, end_eq)) small good few)
