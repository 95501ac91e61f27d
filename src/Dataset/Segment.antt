-- ===== src/Dataset/Segment.antt =====
-- What the two files of a segment hold while blocks are appended.
use smaran.Prelude.{ℕ, ◌+◌, ◌%◌, ◌^◌, ◌<◌, ◌≤◌, ◌≡◌, ◌≢◌, refl, sym, ap, ◌∙◌, arith}
use smaran.Prelude.{List, [], ◌∷◌, ◌++◌, length, true, false, ltb, ◌==◌, ◌||◌}
use smaran.Prelude.{some, none, length-append}
use mathlib.Core.List.{append_assoc, append-nil}
use native.Mathlib.Nat.{mod-eq_of_lt}
use smaran.Bytes.{le_bytes}
use smaran.Dataset.{Entry, Varint, FileSystem, FileLaws, SegmentName, dat, idx}
use smaran.Dataset.Writer.{SegmentWriter, dat_of, idx_of, block_bytes, append_block}

-- The dat file.
unfoldable pub data_bytes : Varint → List (List Entry) → List ℕ
data_bytes v [] = []
data_bytes v (es ∷ rest) = block_bytes v es ++ data_bytes v rest

-- The offsets of the blocks and of the end, when the first block is at `start`.
unfoldable pub offsets_from : Varint → ℕ → List (List Entry) → List ℕ
offsets_from v start [] = start ∷ []
offsets_from v start (es ∷ rest) = start ∷ offsets_from v (start + length (block_bytes v es)) rest

-- The idx file.
unfoldable pub index_bytes : List ℕ → List ℕ
index_bytes [] = []
index_bytes (o ∷ os) = le_bytes 8 o ++ index_bytes os

pub record Holds (fs : FileSystem) (v : Varint) (sw : SegmentWriter) (d : fs.Disk)
    (blocks : List (List Entry)) : Type 0 where
  pub content : fs.read (dat_of sw) d ≡ some (data_bytes v blocks)
  pub index : fs.read (idx_of sw) d ≡ some (index_bytes (offsets_from v 0 blocks))
  pub next : sw.next_block ≡ sw.base + length blocks
  pub inside : sw.base + length blocks ≤ sw.end + 1
  pub end_offset : sw.written ≡ length (data_bytes v blocks)
  pub free : (sw.stuck || sw.closed) ≡ false

pub data_bytes-cons :
    (v : Varint) (es : List Entry) (rest : List (List Entry))
    → data_bytes v (es ∷ rest) ≡ block_bytes v es ++ data_bytes v rest
unfolding data_bytes
data_bytes-cons v es rest = refl

dat-idx : (sw : SegmentWriter) → dat_of sw ≢ idx_of sw
dat-idx sw e = let wrong : dat ≡ idx = ap (λ (n : SegmentName). n.ext) e in absurd (cc)

pub idx-dat : (sw : SegmentWriter) → idx_of sw ≢ dat_of sw
idx-dat sw e = dat-idx sw (sym e)

pub data_bytes-append :
    (v : Varint) (xs ys : List (List Entry))
    → data_bytes v (xs ++ ys) ≡ data_bytes v xs ++ data_bytes v ys
unfolding data_bytes
data_bytes-append v [] ys = refl
data_bytes-append v (x ∷ xs) ys =
    rw
      (
        data_bytes-append v xs ys,
        append_assoc (block_bytes v x) (data_bytes v xs) (data_bytes v ys),
      )
      refl

data_bytes-one : (v : Varint) (es : List Entry) → data_bytes v (es ∷ []) ≡ block_bytes v es
unfolding data_bytes
data_bytes-one v es = append-nil (block_bytes v es)

data_bytes-last :
    (v : Varint) (xs : List (List Entry)) (es : List Entry)
    → data_bytes v (xs ++ es ∷ []) ≡ data_bytes v xs ++ block_bytes v es
data_bytes-last v xs es = rw (data_bytes-append v xs (es ∷ []), data_bytes-one v es) refl

-- The offset behind the new block is put at the end.
index_bytes-last :
    (v : Varint) (start : ℕ) (xs : List (List Entry)) (es : List Entry)
    → index_bytes (offsets_from v start (xs ++ es ∷ []))
      ≡ index_bytes (offsets_from v start xs)
        ++ le_bytes 8 (start + length (data_bytes v xs) + length (block_bytes v es))
unfolding index_bytes offsets_from data_bytes
index_bytes-last v start [] es =
    let e : start + 0 ≡ start = omega arith in
    rw
      (
        e,
        append-nil (le_bytes 8 start),
        append-nil (le_bytes 8 (start + length (block_bytes v es))),
      )
      refl
index_bytes-last v start (x ∷ xs) es =
    let e : start + length (block_bytes v x) + length (data_bytes v xs)
        ≡ start + length (block_bytes v x ++ data_bytes v xs) =
      omega (arith, length-append (block_bytes v x) (data_bytes v xs)) in
    rw
      (
        index_bytes-last v (start + length (block_bytes v x)) xs es,
        e,
        append_assoc (le_bytes 8 start)
            (index_bytes (offsets_from v (start + length (block_bytes v x)) xs))
            (le_bytes 8
              (start + length (block_bytes v x ++ data_bytes v xs) + length (block_bytes v es))),
      )
      refl

module _ (fs : FileSystem) (laws : FileLaws fs) (v : Varint) where
  -- A nil error of appendBlock: the tests that it passed, and what it returns.
  pub append_block-none :
      (block : ℕ) (es : List Entry) (sw : SegmentWriter) (d : fs.Disk)
      → (append_block fs v block es sw d).0 ≡ none
      → (sw.base ≤ block)
        × (block ≤ sw.end)
        × (block ≡ sw.next_block)
        × ((sw.stuck || sw.closed) ≡ false)
        × ((fs.write (dat_of sw) (block_bytes v es) d).0 ≡ true)
        × ((fs.write
              (idx_of sw)
              (le_bytes 8 ((sw.written + length (block_bytes v es)) % 2 ^ 64))
              (fs.write (dat_of sw) (block_bytes v es) d).1).0
            ≡ true)
  unfolding append_block
  append_block-none block es sw d h = ground arith

  -- Where the tests are passed and the writes succeed.
  pub append_block-run :
      (block : ℕ) (es : List Entry) (sw : SegmentWriter) (d : fs.Disk)
      → sw.base ≤ block
      → block ≤ sw.end
      → block ≡ sw.next_block
      → (sw.stuck || sw.closed) ≡ false
      → (fs.write (dat_of sw) (block_bytes v es) d).0 ≡ true
      → (fs.write
          (idx_of sw)
          (le_bytes 8 ((sw.written + length (block_bytes v es)) % 2 ^ 64))
          (fs.write (dat_of sw) (block_bytes v es) d).1).0
        ≡ true
      → append_block fs v block es sw d ≡ (
        none,
        record sw {
          written = sw.written + length (block_bytes v es);
          next_block = (sw.next_block + 1) % 2 ^ 32;
        },
        (fs.write
            (idx_of sw)
            (le_bytes 8 ((sw.written + length (block_bytes v es)) % 2 ^ 64))
            (fs.write (dat_of sw) (block_bytes v es) d).1).1,
      )
  unfolding append_block
  append_block-run block es sw d low high turn free flushed indexed =
      let before : ltb block sw.base ≡ false = ground arith in
      let past : ltb sw.end block ≡ false = ground arith in
      let same : (block == sw.next_block) ≡ true = ground arith in
      rw (before, past, same, free, flushed, indexed) refl

  -- One more block: both files grow by its part, and nothing else of the segment changes.
  grown :
      (es : List Entry) (sw : SegmentWriter) (d : fs.Disk) (blocks : List (List Entry))
      → sw.end + 1 < 2 ^ 32
      → sw.written + length (block_bytes v es) < 2 ^ 64
      → Holds fs v sw d blocks
      → sw.next_block ≤ sw.end
      → (fs.write (dat_of sw) (block_bytes v es) d).0 ≡ true
      → (fs.write
          (idx_of sw)
          (le_bytes 8 ((sw.written + length (block_bytes v es)) % 2 ^ 64))
          (fs.write (dat_of sw) (block_bytes v es) d).1).0
        ≡ true
      → Holds fs v
          (record sw {
            written = sw.written + length (block_bytes v es);
            next_block = (sw.next_block + 1) % 2 ^ 32;
          })
          (fs.write
            (idx_of sw)
            (le_bytes 8 ((sw.written + length (block_bytes v es)) % 2 ^ 64))
            (fs.write (dat_of sw) (block_bytes v es) d).1).1
          (blocks ++ es ∷ [])
  grown es sw d blocks last fits holds high flushed indexed =
      let bytes = block_bytes v es in
      let offset = sw.written + length bytes in
      let d1 = (fs.write (dat_of sw) bytes d).1 in
      let small : offset % 2 ^ 64 ≡ offset = mod-eq_of_lt fits in
      let longer : length (blocks ++ es ∷ []) ≡ length blocks + 1 =
        length-append blocks (es ∷ []) in
      let offset_eq : offset ≡ 0 + length (data_bytes v blocks) + length bytes =
        omega (arith, holds.end_offset) in
      record {
        content =
            laws.write-others (idx_of sw) (dat_of sw) (le_bytes 8 (offset % 2 ^ 64)) d1 (idx-dat sw)
            ∙ laws.read-write (dat_of sw) bytes (data_bytes v blocks) d flushed holds.content
            ∙ ap some (sym (data_bytes-last v blocks es));
        index =
            laws.read-write (idx_of sw) (le_bytes 8 (offset % 2 ^ 64))
              (index_bytes (offsets_from v 0 blocks)) d1 indexed
              (laws.write-others (dat_of sw) (idx_of sw) bytes d (dat-idx sw) ∙ holds.index)
            ∙ rw (small, offset_eq, index_bytes-last v 0 blocks es) refl;
        next = omega (arith, holds.next, longer);
        inside = omega (arith, holds.next, longer);
        end_offset = omega (
          arith,
          holds.end_offset,
          ap (λ (l : List ℕ). length l) (data_bytes-last v blocks es),
          length-append (data_bytes v blocks) bytes,
        );
        free = holds.free;
      }

  -- On a file system with these laws, for a segment that ends before the last number of 32 bits and
  -- whose dat file stays below 2 ^ 64 bytes: when appendBlock returns nil, the block was the next one
  -- and inside the segment, and the files then hold the old blocks and behind them the new one.
  pub append_block-Holds :
      (block : ℕ) (es : List Entry) (sw : SegmentWriter) (d : fs.Disk) (blocks : List (List Entry))
      → sw.end + 1 < 2 ^ 32
      → sw.written + length (block_bytes v es) < 2 ^ 64
      → Holds fs v sw d blocks
      → (append_block fs v block es sw d).0 ≡ none
      → (block ≡ sw.base + length blocks)
        × (block ≤ sw.end)
        × Holds fs v
            (append_block fs v block es sw d).1
            (append_block fs v block es sw d).2
            (blocks ++ es ∷ [])
  append_block-Holds block es sw d blocks last fits holds h =
      let (low, high, turn, free, flushed, indexed) = append_block-none block es sw d h in
      let run = append_block-run block es sw d low high turn free flushed indexed in
      (
        turn ∙ holds.next,
        high,
        rw run (grown es sw d blocks last fits holds (omega arith) flushed indexed),
      )
