-- ===== src/Dataset.antt =====
-- internal/dataset: blocks of changed balances in segment files. main.go and helpers.go, with what the
-- package uses of the file system and of encoding/binary as parameters.
pub mod Writer
pub mod Reader
pub mod Iterate
mod Leb128
mod Decode
mod Segment
mod Reading
mod RoundTrip
mod Accepted
mod Restart
mod Bounds
mod Order
mod Cached
mod Jump
mod Whole
pub mod Sample
mod Runs
use smaran.Prelude.{ℕ, ◌+◌, ◌-◌, ◌*◌, ◌/◌, ◌%◌, ◌^◌, ◌<◌, ◌≡◌, ◌≢◌, Bool, true, List, []}
use smaran.Prelude.{Option, some, ◌++◌, length}

-- An address of 20 bytes and a balance of any length.
pub record Entry : Type 0 where
  pub address : List ℕ
  pub balance : List ℕ

-- A dat and an idx file for each segment; segmentName makes the name out of the three.
pub data Extension : Type 0 where
  dat : Extension
  idx : Extension

pub record SegmentName : Type 0 where
  pub base : ℕ
  pub end : ℕ
  pub ext : Extension

-- segmentBounds, on uint32; a size of 0 is a division by zero in the source.
unfoldable pub segment_bounds : ℕ → ℕ → ℕ × ℕ
segment_bounds block size =
    let base = block / size * size in (base, (base + size + (2 ^ 32 - 1)) % 2 ^ 32)

-- The files below a directory. A call reports whether it succeeded; `create` makes the directory and
-- truncates, `write` appends to a file that is open.
pub record FileSystem : Type 1 where
  pub Disk : Type 0
  pub create : SegmentName → Disk → Bool × Disk
  pub write : SegmentName → List ℕ → Disk → Bool × Disk
  pub read : SegmentName → Disk → Option (List ℕ)

-- What os documents of files that nothing else writes.
pub record FileLaws (fs : FileSystem) : Type 0 where
  pub read-create :
      (f : SegmentName) (d : fs.Disk)
      → (fs.create f d).0 ≡ true
      → fs.read f (fs.create f d).1 ≡ some []
  pub read-write :
      (f : SegmentName) (bytes old : List ℕ) (d : fs.Disk)
      → (fs.write f bytes d).0 ≡ true
      → fs.read f d ≡ some old
      → fs.read f (fs.write f bytes d).1 ≡ some (old ++ bytes)
  pub create-others :
      (f g : SegmentName) (d : fs.Disk) → f ≢ g → fs.read g (fs.create f d).1 ≡ fs.read g d
  pub write-others :
      (f g : SegmentName) (bytes : List ℕ) (d : fs.Disk)
      → f ≢ g
      → fs.read g (fs.write f bytes d).1 ≡ fs.read g d

-- binary.PutUvarint and binary.Uvarint, which gives the number and the bytes it took; `none` stands
-- for a count that is not positive.
pub record Varint : Type 0 where
  pub put_uvarint : ℕ → List ℕ
  pub uvarint : List ℕ → Option (ℕ × ℕ)
  pub uvarint-put_uvarint :
      (n : ℕ) (rest : List ℕ)
      → n < 2 ^ 64
      → uvarint (put_uvarint n ++ rest) ≡ some (n, length (put_uvarint n))
