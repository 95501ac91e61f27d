-- ===== src/Dataset/Accepted.antt =====
-- On a disk that accepts every write, a segment is written without an error, and read back.
use smaran.Prelude.{ℕ, ◌+◌, ◌%◌, ◌^◌, ◌<◌, ◌≤◌, ◌≡◌, refl, ap, ◌∙◌, arith, true, false}
use smaran.Prelude.{List, [], ◌∷◌, ◌++◌, length, All, some, none, ◌||◌, length-append}
use smaran.Dataset.{Entry, FileSystem, FileLaws, SegmentName, Varint, segment_bounds}
use smaran.Bytes.{le_bytes}
use smaran.Dataset.Writer.{
  SegmentWriter, dat_of, idx_of, block_bytes, append_block, append_all, open_segment_writer,
}
use smaran.Dataset.Reader.{ok, dataset_get_block}
use smaran.Dataset.Decode.{IsEntry}
use smaran.Dataset.Segment.{data_bytes, append_block-run}
use smaran.Dataset.RoundTrip.{fresh, get_block-append_all}

pub record Accepts (fs : FileSystem) : Type 0 where
  pub created : (f : SegmentName) (d : fs.Disk) → (fs.create f d).0 ≡ true
  pub written : (f : SegmentName) (bytes : List ℕ) (d : fs.Disk) → (fs.write f bytes d).0 ≡ true

append_all-none :
    (fs : FileSystem) (v : Varint) (block : ℕ) (rest : List (List Entry)) (sw : SegmentWriter)
    (d : fs.Disk)
    → FileLaws fs
    → Accepts fs
    → sw.base ≤ block
    → block + length rest ≤ sw.end + 1
    → sw.end + 1 < 2 ^ 32
    → block ≡ sw.next_block
    → (sw.stuck || sw.closed) ≡ false
    → (append_all fs v block rest sw d).0 ≡ none
unfolding append_all
append_all-none fs v block [] sw d laws acc low fits last turn free = refl
append_all-none fs v block (es ∷ rest) sw d laws acc low fits last turn free =
    let step = append_block fs v block es sw d in
    let run =
      append_block-run fs laws v block es sw d low (omega arith) turn free
        (acc.written (dat_of sw) (block_bytes v es) d)
        (acc.written (idx_of sw) (le_bytes 8 ((sw.written + length (block_bytes v es)) % 2 ^ 64))
          (fs.write (dat_of sw) (block_bytes v es) d).1) in
    let none1 : step.0 ≡ none = ap (λ r. r.0) run in
    let base1 : step.1.base ≡ sw.base = ap (λ r. r.1.base) run in
    let end1 : step.1.end ≡ sw.end = ap (λ r. r.1.end) run in
    let next1 : step.1.next_block ≡ (sw.next_block + 1) % 2 ^ 32 = ap (λ r. r.1.next_block) run in
    let free1 : (step.1.stuck || step.1.closed) ≡ false =
      ap (λ r. r.1.stuck || r.1.closed) run ∙ free in
    rw (append_all, none1)
      (append_all-none fs v (block + 1) rest step.1 step.2 laws acc (omega (arith, base1))
        (omega (arith, end1)) (omega (arith, end1)) (omega (arith, next1)) free1)

opened-some :
    (fs : FileSystem) (base end : ℕ) (d : fs.Disk)
    → Accepts fs
    → (open_segment_writer fs base end d).0 ≡ some (fresh base end)
unfolding open_segment_writer
opened-some fs base end d acc = rw (open_segment_writer, acc.created, acc.created, acc.written) refl

-- On a file system with these laws that accepts every call, for consecutive blocks `xs ++ es ∷ ys` that fit
-- a segment which ends before the last number of 32 bits, with less than 2 ^ 63 bytes in all: the
-- segment is opened and every block is appended without an error, and a new reader returns `es` for
-- the number of its block, where the entries of `es` fit their types.
pub dataset_get_block-append_all :
    (fs : FileSystem) (v : Varint) (size base end : ℕ) (xs : List (List Entry)) (es : List Entry)
    (ys : List (List Entry)) (d : fs.Disk)
    → FileLaws fs
    → Accepts fs
    → segment_bounds (base + length xs) size ≡ (base, end)
    → base + length (xs ++ es ∷ ys) ≤ end + 1
    → end + 1 < 2 ^ 32
    → length (data_bytes v (xs ++ es ∷ ys)) < 2 ^ 63
    → All IsEntry es
    → length es < 2 ^ 32
    → ((open_segment_writer fs base end d).0 ≡ some (fresh base end))
      × ((append_all fs v base
            (xs ++ es ∷ ys)
            (fresh base end)
            (open_segment_writer fs base end d).1).0
          ≡ none)
      × ((dataset_get_block fs v size
            (base + length xs)
            none
            (append_all fs v base
              (xs ++ es ∷ ys)
              (fresh base end)
              (open_segment_writer fs base end d).1).2).0
          ≡ ok es)
dataset_get_block-append_all fs v size base end xs es ys d laws acc bounds fits last small good
      few =
    let open_ok = opened-some fs base end d acc in
    let all_ok =
      append_all-none fs v base (xs ++ es ∷ ys) (fresh base end)
        (open_segment_writer fs base end d).1 laws acc (omega arith) fits last refl refl in
    (
      open_ok,
      all_ok,
      get_block-append_all fs v size base end xs es ys d (fresh base end) laws bounds
          (omega (arith, length-append xs (es ∷ ys))) last open_ok all_ok small good few,
    )
