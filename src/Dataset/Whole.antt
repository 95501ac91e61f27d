-- ===== src/Dataset/Whole.antt =====
-- The segments of IterateRange, one after the other.
use smaran.Prelude.{ℕ, zero, suc, ◌+◌, ◌-◌, ◌^◌, ◌<◌, ◌≡◌, refl, sym, ◌∙◌, arith}
use smaran.Prelude.{List, Option, some, none, Bool, ltb}
use smaran.Prelude.{Option-cases, Bool-cases, inl, inr, ◌⊎◌}
use smaran.Dataset.{Entry, FileSystem, Varint, segment_bounds}
use smaran.Dataset.Reader.{
  Outcome, ok, failed, panicked, SegmentReader, open_segment_reader, ensure_segment, ReadError,
}
use smaran.Dataset.Iterate.{
  visit_blocks, iterate_loop, iterate_range, each_block, seg_stop_of, next_start,
}
use smaran.Dataset.Cached.{Cached, Cached-none, ensure_segment-Cached, opened_reader-Cached}
use smaran.Dataset.Jump.{each_block-past, jump, past_stop, past_stop_lem, inner, serves}

Outcome-cases {ℓ} :
    {A : Type ℓ} (o : Outcome A)
    → ((a : A) × (o ≡ ok a)) ⊎ ((e : ReadError) × (o ≡ failed e)) ⊎ (o ≡ panicked)
Outcome-cases (ok a) = inl (a, refl)
Outcome-cases (failed e) = inr (inl (e, refl))
Outcome-cases panicked = inr (inr refl)

module _ (fs : FileSystem) (v : Varint) {T : Type 0} (fn : ℕ → List Entry → T → Bool × T) where
  -- From a block on, the loop over the segments does what the blocks one by one do.
  iterate_loop-each_block :
      (size b : ℕ) (d : fs.Disk) (fuel n : ℕ) (cur : Option SegmentReader) (t : T)
      → 0 < size
      → b + size < 2 ^ 32
      → Cached fs size cur d
      → b + 1 - n < fuel
      → (
        (iterate_loop fs v fn fuel size b n cur t d).0,
        (iterate_loop fs v fn fuel size b n cur t d).2,
      )
        ≡ each_block fs v fn size (b + 1 - n) n t d
  unfolding iterate_loop each_block
  iterate_loop-each_block size b d zero n cur t pos fits cached enough = absurd (omega arith)
  iterate_loop-each_block size b d (suc fuel) n cur t pos fits cached enough =
      let same = ensure_segment-Cached fs size n cur d cached in
      let now = opened_reader-Cached fs size n d in
      elim (Bool-cases (ltb b n)) [
        | inl e ↦ rw e (sym (each_block-past fs v fn size b n t d (ground arith)))
        | inr e ↦
            let one : b + 1 - n ≡ suc (b - n) = ground arith in
            elim (Outcome-cases
              (open_segment_reader fs (segment_bounds n size).0 (segment_bounds n size).1 d)) [
                | inr (inl (x, o)) ↦ rw (e, same, one, each_block, o) refl
                | inr (inr o) ↦ rw (e, same, one, each_block, o) refl
                | inl (sr, o) ↦
                    let (here, last, opens) =
                      serves fs v fn size b n sr d pos fits (ground arith) o in
                    let (goes, ends) =
                      inner fs v fn size b n sr t d (ground arith) here last opens in
                    let stop = seg_stop_of sr b in
                    let visit = visit_blocks fs v fn (stop + 1 - n + 1) sr stop n t d in
                    let p = past_stop fs v fn stop n in
                    let whole : ensure_segment fs size n cur d ≡ (ok sr, some sr) =
                      same ∙ rw o refl in
                    let (late, inside, ahead, goes_on) =
                      past_stop_lem fs v fn sr b n (ground arith) here last in
                    elim (Option-cases (visit_blocks fs v fn (stop + 1 - n + 1) sr stop n t d).0) [
                      | inr (x, f) ↦ rw (e, whole, f) (sym (goes ∙ rw f refl))
                      | inl f ↦
                          let q = next_start sr b stop p in
                          let on =
                            iterate_loop-each_block size b d fuel q (some sr) visit.2 pos fits
                              (rw o at now) (omega (arith, goes_on)) in
                          rw (e, whole, f, ends f, whole)
                            (on
                              ∙ sym (
                                  goes
                                  ∙ rw f (
                                      jump fs v fn size b p sr visit.2 d late inside last
                                        (λ i x y. opens i (omega (arith, ahead)) y))))
                    ]
              ]
      ]

  -- For a positive segment size, a last number with a whole segment size to 2 ^ 32 behind it, and a
  -- reader with no open segment: IterateRange ends, with the callback's state and the error of going
  -- from block to block, where the blocks that are not built are passed over and the first error of
  -- an open, a read or the callback stops.
  pub iterate_range-each_block :
      (size a b : ℕ) (t : T) (d : fs.Disk)
      → 0 < size
      → b + size < 2 ^ 32
      → ((iterate_range fs v fn size a b none t d).0, (iterate_range fs v fn size a b none t d).2)
        ≡ each_block fs v fn size (b + 1 - a) a t d
  unfolding iterate_range
  iterate_range-each_block size a b t d pos fits = elim (Bool-cases (ltb b a)) [
    | inl e ↦ rw e (sym (each_block-past fs v fn size b a t d (ground arith)))
    | inr e ↦ rw e (
        iterate_loop-each_block size b d (b - a + 2) a none t pos fits (Cached-none fs size d)
          (ground arith))
  ]
