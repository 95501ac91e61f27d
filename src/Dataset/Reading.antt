-- ===== src/Dataset/Reading.antt =====
-- What getBlock reads from the two files of a segment.
use smaran.Prelude.{ℕ, suc, ◌+◌, ◌-◌, ◌*◌, ◌/◌, ◌%◌, ◌^◌, ◌<◌, ◌≤◌, ◌≡◌, refl, sym, ap, ◌∙◌, arith}
use smaran.Prelude.{List, [], ◌∷◌, ◌++◌, length, take, drop, true, false, ltb, leb, ◌==◌, All}
use smaran.Prelude.{some, length-append, get_elem?}
use smaran.Prelude.{ltb_of_le, take-append, drop-append}
use mathlib.Core.List.{append-nil}
use mathlib.Core.Path.{subst}
use smaran.Bytes.{le_bytes}
use smaran.Bytes.Laws.{le_value-le_bytes, length-le_bytes}
use smaran.Dataset.{Entry, Varint, FileSystem, SegmentName, dat}
use smaran.Dataset.Writer.{SegmentWriter, dat_of, entries_bytes, block_bytes}
use smaran.Dataset.Reader.{
  SegmentReader, ok, read_offsets, last_written_of, open_segment_reader, get_block, read_between,
  signed_ltb, decode_block,
}
use smaran.Dataset.Decode.{IsEntry, decode_block-ok}
use smaran.Dataset.Segment.{Holds, data_bytes, offsets_from, index_bytes, data_bytes-append}

length-offsets_from :
    (v : Varint) (start : ℕ) (blocks : List (List Entry))
    → length (offsets_from v start blocks) ≡ suc (length blocks)
unfolding offsets_from
length-offsets_from v start [] = refl
length-offsets_from v start (b ∷ bs) =
    ap suc (length-offsets_from v (start + length (block_bytes v b)) bs)

length-index_bytes : (os : List ℕ) → length (index_bytes os) ≡ length os * 8
unfolding index_bytes
length-index_bytes [] = refl
length-index_bytes (o ∷ os) = omega (
  arith,
  length-append (le_bytes 8 o) (index_bytes os),
  length-le_bytes 8 o,
  length-index_bytes os,
)

-- Every offset is at most the size of the dat file.
offsets_from-small :
    (v : Varint) (start bound : ℕ) (blocks : List (List Entry))
    → start + length (data_bytes v blocks) < bound
    → All (λ o. o < bound) (offsets_from v start blocks)
unfolding offsets_from data_bytes
offsets_from-small v start bound [] h = (omega arith, tt)
offsets_from-small v start bound (b ∷ bs) h =
    let longer = length-append (block_bytes v b) (data_bytes v bs) in
    (omega arith, offsets_from-small v (start + length (block_bytes v b)) bound bs (omega arith))

read_offsets-index_bytes :
    (os : List ℕ) → All (λ o. o < 2 ^ 64) os → read_offsets (length os) (index_bytes os) ≡ os
unfolding read_offsets index_bytes
read_offsets-index_bytes [] small = refl
read_offsets-index_bytes (o ∷ os) (small, more) =
    let eight = length-le_bytes 8 o in
    rw
      (
        take-append (le_bytes 8 o) (index_bytes os) 8 eight,
        drop-append (le_bytes 8 o) (index_bytes os) 8 eight,
        le_value-le_bytes 8 o small,
        read_offsets-index_bytes os more,
      )
      refl

-- The offsets of the block behind `xs`, and of its end.
get-offsets_from :
    (v : Varint) (start : ℕ) (xs : List (List Entry)) (es : List Entry) (ys : List (List Entry))
    → (get_elem? (offsets_from v start (xs ++ es ∷ ys)) (length xs)
        ≡ some (start + length (data_bytes v xs)))
      × (get_elem? (offsets_from v start (xs ++ es ∷ ys)) (suc (length xs))
          ≡ some (start + length (data_bytes v xs) + length (block_bytes v es)))
unfolding offsets_from data_bytes
get-offsets_from v start [] es [] =
    let e : start + 0 ≡ start = omega arith in (ap some (sym e), rw e refl)
get-offsets_from v start [] es (y ∷ ys) =
    let e : start + 0 ≡ start = omega arith in (ap some (sym e), rw e refl)
get-offsets_from v start (x ∷ xs) es ys =
    let (here, behind) = get-offsets_from v (start + length (block_bytes v x)) xs es ys in
    let e : start + length (block_bytes v x) + length (data_bytes v xs)
        ≡ start + length (block_bytes v x ++ data_bytes v xs) =
      omega (arith, length-append (block_bytes v x) (data_bytes v xs)) in
    (here ∙ ap some e, behind ∙ rw e refl)

-- What openSegmentReader makes of the files.
abbrev pub reader_of : Varint → SegmentWriter → List (List Entry) → SegmentReader
reader_of v sw blocks = record {
  base = sw.base;
  end = sw.end;
  dat_file = record { base = sw.base; end = sw.end; ext = dat };
  offsets = offsets_from v 0 blocks;
  last_written = last_written_of sw.base (suc (length blocks));
}

pub open_segment_reader-Holds :
    (fs : FileSystem) (v : Varint) (sw : SegmentWriter) (d : fs.Disk) (blocks : List (List Entry))
    → Holds fs v sw d blocks
    → length (data_bytes v blocks) < 2 ^ 64
    → open_segment_reader fs sw.base sw.end d ≡ ok (reader_of v sw blocks)
unfolding open_segment_reader
open_segment_reader-Holds fs v sw d blocks holds small =
    let os = offsets_from v 0 blocks in
    let count = length-offsets_from v 0 blocks in
    let size : length (index_bytes os) ≡ suc (length blocks) * 8 =
      omega (arith, length-index_bytes os, count) in
    let whole : (suc (length blocks) * 8 % 8 == 0) ≡ true = ground arith in
    let number : suc (length blocks) * 8 / 8 ≡ suc (length blocks) = omega arith in
    let enough : ltb (suc (length blocks)) 1 ≡ false = ground arith in
    let back : read_offsets (suc (length blocks)) (index_bytes os) ≡ os =
      ap (λ (n : ℕ). read_offsets n (index_bytes os)) (sym count)
      ∙ read_offsets-index_bytes os (offsets_from-small v 0 (2 ^ 64) blocks (omega arith)) in
    rw (open_segment_reader, holds.content, holds.index, size, number, whole, enough, back) refl

length-block_bytes : (v : Varint) (es : List Entry) → 4 ≤ length (block_bytes v es)
unfolding block_bytes
length-block_bytes v es = omega (
  arith,
  length-append (le_bytes 4 (length es % 2 ^ 32)) (entries_bytes v es),
  length-le_bytes 4 (length es % 2 ^ 32),
)

-- The part of a file between two offsets.
read_between-ok :
    (fs : FileSystem) (v : Varint) (file : SegmentName) (d : fs.Disk) (xs zs : List ℕ)
    (es : List Entry)
    → fs.read file d ≡ some (xs ++ (block_bytes v es ++ zs))
    → length (xs ++ (block_bytes v es ++ zs)) < 2 ^ 63
    → All IsEntry es
    → length es < 2 ^ 32
    → read_between fs v file (length xs) (length xs + length (block_bytes v es)) d ≡ ok es
unfolding read_between
read_between-ok fs v file d xs zs es content small good few =
    let bytes = block_bytes v es in
    let start = length xs in
    let end = length xs + length bytes in
    let positive = length-block_bytes v es in
    let room : start + (length bytes + length zs) < 2 ^ 63 =
      omega (arith, length-append xs (bytes ++ zs), length-append bytes zs) in
    let size : (end + (2 ^ 64 - start)) % 2 ^ 64 ≡ length bytes = omega arith in
    let order : signed_ltb end start ≡ false =
      ltb_of_le ((end + 2 ^ 63) % 2 ^ 64) ((start + 2 ^ 63) % 2 ^ 64) (omega arith) in
    let apart : (end == start) ≡ false = ground arith in
    let made : leb (2 ^ 63) (length bytes) ≡ false = ground arith in
    let offset : leb (2 ^ 63) start ≡ false = ground arith in
    let part : take (length bytes) (drop start (xs ++ (bytes ++ zs))) ≡ bytes =
      rw (drop-append xs (bytes ++ zs) start refl) (take-append bytes zs (length bytes) refl) in
    let full : (length bytes == length bytes) ≡ true = ground arith in
    let back : decode_block v bytes ≡ ok es =
      subst (λ l. decode_block v l ≡ ok es) (append-nil bytes)
        (decode_block-ok v es [] good few (rw (append-nil bytes) (omega arith))) in
    rw (read_between, order, apart, size, made, content, size, offset, part, full, back) refl

-- A block that the files of a segment hold is the one that getBlock returns.
pub get_block-Holds :
    (fs : FileSystem) (v : Varint) (sw : SegmentWriter) (d : fs.Disk) (xs : List (List Entry))
    (es : List Entry) (ys : List (List Entry))
    → Holds fs v sw d (xs ++ es ∷ ys)
    → sw.end + 1 < 2 ^ 32
    → length (data_bytes v (xs ++ es ∷ ys)) < 2 ^ 63
    → All IsEntry es
    → length es < 2 ^ 32
    → get_block fs v (reader_of v sw (xs ++ es ∷ ys)) (sw.base + length xs) d ≡ ok es
unfolding get_block last_written_of data_bytes
get_block-Holds fs v sw d xs es ys holds last small good few =
    let blocks = xs ++ es ∷ ys in
    let n = length xs in
    let count : length blocks ≡ n + suc (length ys) = length-append xs (es ∷ ys) in
    let parts = data_bytes-append v xs (es ∷ ys) in
    let (here, behind) = get-offsets_from v 0 xs es ys in
    let low : ltb (sw.base + n) sw.base ≡ false = ground arith in
    let high : ltb sw.end (sw.base + n) ≡ false =
      ltb_of_le sw.end (sw.base + n) (omega (arith, holds.inside, count)) in
    let many : (suc (length blocks) == 1) ≡ false = ground (arith, count) in
    let built : ltb ((sw.base + (suc (length blocks) - 2) % 2 ^ 32) % 2 ^ 32) (sw.base + n)
        ≡ false =
      ltb_of_le ((sw.base + (suc (length blocks) - 2) % 2 ^ 32) % 2 ^ 32) (sw.base + n)
        (omega (arith, holds.inside, count)) in
    let index : sw.base + n - sw.base ≡ n = omega arith in
    let next : n + 1 ≡ suc n = omega arith in
    let first : 0 + length (data_bytes v xs) ≡ length (data_bytes v xs) = omega arith in
    let at_start = here ∙ ap some first in
    let at_end = behind ∙ ap (λ (t : ℕ). some (t + length (block_bytes v es))) first in
    let content = holds.content ∙ ap some parts in
    rw (get_block, low, high, many, built, index, at_start, index, next, at_end)
      (read_between-ok fs v (dat_of sw) d (data_bytes v xs) (data_bytes v ys) es content
        (rw parts at small) good few)
