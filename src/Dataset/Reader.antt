-- ===== src/Dataset/Reader.antt =====
-- reader.go and ensureSegment of helpers.go: DatasetReader and its segment reader.
use smaran.Prelude.{ℕ, zero, suc, ◌+◌, ◌-◌, ◌/◌, ◌%◌, ◌^◌, List, [], ◌∷◌, length, take, drop}
use smaran.Prelude.{Option, some, none, Bool, if◌then◌else◌, not, ltb, leb, ◌==◌, ◌||◌}
use smaran.Prelude.{get_elem?}
use smaran.Bytes.{le_value}
use smaran.Dataset.{Entry, SegmentName, segment_bounds, FileSystem, Varint, dat, idx}

pub data ReadError : Type 0 where
  no_file : ReadError
  corrupt_index : ReadError
  out_of_segment : ReadError
  not_built : ReadError
  unexpected_eof : ReadError
  bad_offset : ReadError

-- A value, an error or a panic.
pub data Outcome {ℓ} (A : Type ℓ) : Type ℓ where
  ok : A → Outcome A
  failed : ReadError → Outcome A
  panicked : Outcome A

abbrev pub and_then {ℓ κ} : {A : Type ℓ} {B : Type κ} → Outcome A → (A → Outcome B) → Outcome B
and_then (ok a) f = f a
and_then (failed e) f = failed e
and_then panicked f = panicked

-- The open dat file is known by its name.
pub record SegmentReader : Type 0 where
  pub base : ℕ
  pub end : ℕ
  pub dat_file : SegmentName
  pub offsets : List ℕ
  pub last_written : ℕ

-- The numbers of 8 bytes from which openSegmentReader makes the offsets.
unfoldable pub read_offsets : ℕ → List ℕ → List ℕ
read_offsets zero bytes = []
read_offsets (suc n) bytes = le_value (take 8 bytes) ∷ read_offsets n (drop 8 bytes)

-- base - 1 and base + uint32(nOffsets - 2) on uint32.
unfoldable pub last_written_of : ℕ → ℕ → ℕ
last_written_of base n_offsets =
    if n_offsets == 1
    then (base + (2 ^ 32 - 1)) % 2 ^ 32
    else (base + (n_offsets - 2) % 2 ^ 32) % 2 ^ 32

module _ (fs : FileSystem) where
  unfoldable pub open_segment_reader : ℕ → ℕ → fs.Disk → Outcome SegmentReader
  unfolding read_offsets last_written_of
  open_segment_reader base end d =
      let dat_file : SegmentName = record { base = base; end = end; ext = dat } in
      let idx_file : SegmentName = record { base = base; end = end; ext = idx } in
      elim (fs.read dat_file d) [
        | none ↦ failed no_file
        | some _ ↦ elim (fs.read idx_file d) [
          | none ↦ failed no_file
          | some bytes ↦
              let n_offsets = length bytes / 8 in
              if not (length bytes % 8 == 0)
              then failed corrupt_index
              else if ltb n_offsets 1
              then failed corrupt_index
              else ok (record {
                base = base;
                end = end;
                dat_file = dat_file;
                offsets = read_offsets n_offsets bytes;
                last_written = last_written_of base n_offsets;
              })
        ]
      ]

-- The bytes of a balance at `pos`, and the position behind it. Where pos+int(blen) is not an int, it
-- passes the test against the length and the slice panics.
unfoldable pub decode_balance : List ℕ → ℕ → ℕ → Outcome (List ℕ × ℕ)
decode_balance buf pos blen =
    if blen == 0
    then ok ([], pos)
    else if leb (2 ^ 63) (pos + blen)
    then panicked
    else if ltb (length buf) (pos + blen)
    then failed unexpected_eof
    else ok (take blen (drop pos buf), pos + blen)

-- One round of the loop of getBlock: an entry and the position behind it.
unfoldable pub decode_entry : Varint → List ℕ → ℕ → Outcome (Entry × ℕ)
unfolding decode_balance
decode_entry v buf pos =
    if ltb (length buf) (pos + 20)
    then failed unexpected_eof
    else elim (v.uvarint (drop (pos + 20) buf)) [
      | none ↦ failed unexpected_eof
      | some (blen, n) ↦ and_then (decode_balance buf (pos + 20 + n) blen) (λ (balance, next).
          ok (record { address = take 20 (drop pos buf); balance = balance }, next))
    ]

-- The loop, for the `k` entries that remain.
unfoldable pub decode_entries : Varint → ℕ → List ℕ → ℕ → Outcome (List Entry)
unfolding decode_entry
decode_entries v zero buf pos = ok []
decode_entries v (suc k) buf pos =
    and_then (decode_entry v buf pos)
      (λ (e, next). and_then (decode_entries v k buf next) (λ es. ok (e ∷ es)))

-- What follows the reading of `buf`.
unfoldable pub decode_block : Varint → List ℕ → Outcome (List Entry)
unfolding decode_entries
decode_block v buf =
    if ltb (length buf) 4
    then failed unexpected_eof
    else decode_entries v (le_value (take 4 buf)) buf 4

-- int64(x) < int64(y), on uint64.
abbrev pub signed_ltb : ℕ → ℕ → Bool
signed_ltb x y = ltb ((x + 2 ^ 63) % 2 ^ 64) ((y + 2 ^ 63) % 2 ^ 64)

-- dr.cur, where it is the segment that starts at `base`.
abbrev pub kept_reader : ℕ → Option SegmentReader → Option SegmentReader
kept_reader base none = none
kept_reader base (some sr) = if sr.base == base then some sr else none

-- A segment that could not be opened leaves no `cur`.
abbrev pub opened_reader : Outcome SegmentReader → Outcome SegmentReader × Option SegmentReader
opened_reader (ok sr) = (ok sr, some sr)
opened_reader (failed e) = (failed e, none)
opened_reader panicked = (panicked, none)

module _ (fs : FileSystem) where
  -- getBlock from the offsets on: a negative size is refused by make, a negative offset by ReadAt.
  unfoldable pub read_between : Varint → SegmentName → ℕ → ℕ → fs.Disk → Outcome (List Entry)
  unfolding decode_block
  read_between v file start end d =
      let size = (end + (2 ^ 64 - start)) % 2 ^ 64 in
      if signed_ltb end start
      then failed corrupt_index
      else if end == start
      then ok []
      else if leb (2 ^ 63) size
      then panicked
      else elim (fs.read file d) [
        | none ↦ failed no_file
        | some bytes ↦
            let buf = take size (drop start bytes) in
            if leb (2 ^ 63) start
            then failed bad_offset
            else if not (length buf == size)
            then failed unexpected_eof
            else decode_block v buf
      ]

  unfoldable pub get_block : Varint → SegmentReader → ℕ → fs.Disk → Outcome (List Entry)
  unfolding read_between
  get_block v sr block d =
      let i = block - sr.base in
      if ltb block sr.base || ltb sr.end block
      then failed out_of_segment
      else if ltb sr.last_written block
      then failed not_built
      else elim (get_elem? sr.offsets i) [
        | none ↦ panicked
        | some start ↦ elim (get_elem? sr.offsets (i + 1)) [
          | none ↦ panicked
          | some end ↦ read_between v sr.dat_file start end d
        ]
      ]

  -- ensureSegment: the reader of the segment, from `cur` where it is there; with the new `cur`.
  unfoldable pub ensure_segment :
      ℕ → ℕ → Option SegmentReader → fs.Disk → Outcome SegmentReader × Option SegmentReader
  unfolding open_segment_reader
  ensure_segment size block cur d =
      let base = (segment_bounds block size).0 in
      let end = (segment_bounds block size).1 in
      elim (kept_reader base cur) [
        | some sr ↦ (ok sr, some sr)
        | none ↦ opened_reader (open_segment_reader fs base end d)
      ]

  -- GetBlock of DatasetReader.
  unfoldable pub dataset_get_block :
      Varint → ℕ → ℕ → Option SegmentReader → fs.Disk → Outcome (List Entry) × Option SegmentReader
  unfolding ensure_segment get_block
  dataset_get_block v size block cur d =
      let (sr, cur') = ensure_segment size block cur d in
      (and_then sr (λ r. get_block v r block d), cur')
