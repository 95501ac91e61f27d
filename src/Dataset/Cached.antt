-- ===== src/Dataset/Cached.antt =====
-- The segment reader that ensureSegment keeps.
use smaran.Prelude.{ℕ, ◌≡◌, refl, arith}
use smaran.Prelude.{Option, some, none}
use smaran.Prelude.{Bool-cases, inl, inr, ◌==◌}
use smaran.Dataset.{FileSystem, segment_bounds}
use smaran.Dataset.Reader.{
  Outcome, ok, failed, panicked, SegmentReader, open_segment_reader, ensure_segment, opened_reader,
}
use smaran.Dataset.Bounds.{same_base}
use smaran.Dataset.Order.{open_segment_reader-bounds}

-- The segment reader that is kept is what opening its segment gives.
pub Cached : (fs : FileSystem) → ℕ → Option SegmentReader → fs.Disk → Type 0
Cached fs size cur d =
    (sr : SegmentReader)
    → cur ≡ some sr
    → (block : ℕ) × (open_segment_reader fs (segment_bounds block size).0
          (segment_bounds block size).1 d
        ≡ ok sr)

pub Cached-none : (fs : FileSystem) (size : ℕ) (d : fs.Disk) → Cached fs size none d
unfolding Cached
Cached-none fs size d sr h = absurd (cc)

pub ensure_segment-Cached :
    (fs : FileSystem) (size block : ℕ) (cur : Option SegmentReader) (d : fs.Disk)
    → Cached fs size cur d
    → ensure_segment fs size block cur d
      ≡ opened_reader
          (open_segment_reader fs (segment_bounds block size).0 (segment_bounds block size).1 d)
unfolding ensure_segment Cached
ensure_segment-Cached fs size block none d c = refl
ensure_segment-Cached fs size block (some sr) d c =
    elim (Bool-cases (sr.base == (segment_bounds block size).0)) [
      | inr e ↦ rw (ensure_segment, e) refl
      | inl e ↦
          let (other, opens) = c sr refl in
          let fields =
            open_segment_reader-bounds fs (segment_bounds other size).0
              (segment_bounds other size).1 d sr opens in
          let base : (segment_bounds other size).0 ≡ (segment_bounds block size).0 =
            ground (arith, fields.0) in
          let bounds : segment_bounds other size ≡ segment_bounds block size =
            same_base other block size base in
          let here : open_segment_reader fs (segment_bounds block size).0
                (segment_bounds block size).1 d
              ≡ ok sr =
            rw bounds at opens in
          rw (ensure_segment, e, here) refl
    ]

opened_reader-some :
    (o : Outcome SegmentReader) (sr : SegmentReader) → (opened_reader o).1 ≡ some sr → o ≡ ok sr
opened_reader-some (ok r) sr h = cc
opened_reader-some (failed e) sr h = absurd (cc)
opened_reader-some panicked sr h = absurd (cc)

pub opened_reader-Cached :
    (fs : FileSystem) (size block : ℕ) (d : fs.Disk)
    → Cached fs size
        (opened_reader
          (open_segment_reader fs (segment_bounds block size).0 (segment_bounds block size).1 d)).1
        d
unfolding Cached
opened_reader-Cached fs size block d sr h = (
  block,
  opened_reader-some
      (open_segment_reader fs (segment_bounds block size).0 (segment_bounds block size).1 d) sr h,
)
