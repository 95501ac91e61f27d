-- ===== src/Dataset/Jump.antt =====
-- One segment of IterateRange: its inner loop, and the step to the next segment.
use smaran.Prelude.{ℕ, suc, ◌+◌, ◌-◌, ◌%◌, ◌^◌, ◌<◌, ◌≤◌, ◌≡◌, refl, ◌∙◌, arith}
use smaran.Prelude.{List, none, Bool, ltb, leb}
use smaran.Prelude.{Bool-cases, inl, inr, ◌⊎◌, if◌then◌else◌}
use native.Mathlib.Nat.{mod-eq_of_lt}
use smaran.Dataset.{Entry, FileSystem, Varint, segment_bounds}
use smaran.Dataset.Reader.{ok, SegmentReader, open_segment_reader}
use smaran.Dataset.Iterate.{visit_blocks, each_block, seg_stop_of, next_start}
use smaran.Dataset.Bounds.{base_le, block_lt, end_eq, same_segment}
use smaran.Dataset.Order.{
  open_segment_reader-bounds, visit_blocks-each_block, each_block-unbuilt, after,
}

-- The least of three numbers is one of them.
seg_stop_of_lem :
    (sr : SegmentReader) (b : ℕ)
    → (seg_stop_of sr b ≤ b)
      × (seg_stop_of sr b ≤ sr.end)
      × (seg_stop_of sr b ≤ sr.last_written)
      × ((seg_stop_of sr b < b → seg_stop_of sr b < sr.end → sr.last_written ≡ seg_stop_of sr b))
unfolding seg_stop_of
seg_stop_of_lem sr b = (ground arith, ground arith, ground arith, λ h k. ground arith)

next_start-le :
    (sr : SegmentReader) (b stop n : ℕ)
    → sr.end + 1 < 2 ^ 32
    → n ≤ sr.end + 1
    → (n ≤ next_start sr b stop n)
      × (n ≤ b → stop < sr.end → next_start sr b stop n ≡ sr.end + 1)
      × ((next_start sr b stop n ≡ n) ⊎ ((n ≤ b) × (stop < sr.end)))
unfolding next_start
next_start-le sr b stop n h k =
    let whole : (sr.end + 1) % 2 ^ 32 ≡ sr.end + 1 = mod-eq_of_lt h in
    (ground (arith, whole), λ x y. ground (arith, whole), ground arith)

module _ (fs : FileSystem) (v : Varint) {T : Type 0} (fn : ℕ → List Entry → T → Bool × T) where
  pub each_block-past :
      (size b n : ℕ) (t : T) (d : fs.Disk)
      → b < n
      → each_block fs v fn size (b + 1 - n) n t d ≡ (none, t)
  unfolding each_block
  each_block-past size b n t d h = let e : b + 1 - n ≡ 0 = omega arith in rw e refl

  each_block-none : (size n : ℕ) (t : T) (d : fs.Disk) → each_block fs v fn size 0 n t d ≡ (none, t)
  unfolding each_block
  each_block-none size n t d = refl

  -- The blocks from `p` on, which are not built if the loop goes on to the next segment.
  pub jump :
      (size b p : ℕ) (sr : SegmentReader) (t : T) (d : fs.Disk)
      → seg_stop_of sr b < p
      → p ≤ sr.end + 1
      → sr.end + 1 < 2 ^ 32
      → ((i : ℕ)
          → p ≤ i
          → i ≤ sr.end
          → open_segment_reader fs (segment_bounds i size).0 (segment_bounds i size).1 d ≡ ok sr)
      → each_block fs v fn size (b + 1 - p) p t d
        ≡ each_block fs v fn size
            (b + 1 - next_start sr b (seg_stop_of sr b) p)
            (next_start sr b (seg_stop_of sr b) p)
            t
            d
  jump size b p sr t d late inside last opens =
      let (grows, jumps, choice) = next_start-le sr b (seg_stop_of sr b) p last inside in
      elim choice [
        | inl same ↦ rw same refl
        | inr (low, below) ↦
            let (_, _, _, least) = seg_stop_of_lem sr b in
            let unbuilt : sr.last_written < p = omega (arith, least (omega arith) below) in
            let to = jumps low below in
            elim (Bool-cases (leb sr.end b)) [
              | inl e ↦
                  let parts : b + 1 - p ≡ sr.end + 1 - p + (b + 1 - (sr.end + 1)) = ground arith in
                  let place : p + (sr.end + 1 - p) ≡ sr.end + 1 = omega arith in
                  let skip =
                    each_block-unbuilt fs v fn size (b + 1 - (sr.end + 1)) sr d (sr.end + 1 - p) p t
                      unbuilt (λ i x y. opens i x (omega arith)) in
                  rw (to, parts) (skip ∙ rw place refl)
              | inr e ↦
                  let parts : b + 1 - p ≡ b + 1 - p + 0 = omega arith in
                  let past : b < sr.end + 1 = ground arith in
                  let skip =
                    each_block-unbuilt fs v fn size 0 sr d (b + 1 - p) p t unbuilt
                      (λ i x y. opens i x (omega arith)) in
                  rw (to, each_block-past size b (sr.end + 1) t d past, parts)
                    (skip ∙ each_block-none size (p + (b + 1 - p)) t d)
            ]
      ]

  -- Where the inner loop stands when it is through.
  abbrev pub past_stop : ℕ → ℕ → ℕ
  past_stop stop n = if ltb stop n then n else stop + 1

  pub past_stop_lem :
      (sr : SegmentReader) (b n : ℕ)
      → n ≤ b
      → n ≤ sr.end
      → sr.end + 1 < 2 ^ 32
      → (seg_stop_of sr b < past_stop (seg_stop_of sr b) n)
        × (past_stop (seg_stop_of sr b) n ≤ sr.end + 1)
        × (n ≤ past_stop (seg_stop_of sr b) n)
        × (n < next_start sr b (seg_stop_of sr b) (past_stop (seg_stop_of sr b) n))
  past_stop_lem sr b n low here last =
      let stop = seg_stop_of sr b in
      let (to_b, to_end, to_last, _) = seg_stop_of_lem sr b in
      elim (Bool-cases (ltb stop n)) [
        | inl e ↦
            let (grows, jumps, _) = next_start-le sr b stop n last (omega arith) in
            let below : stop < n = ground arith in
            rw e (below, omega arith, omega arith, omega (arith, jumps low (omega arith)))
        | inr e ↦
            let (grows, _, _) = next_start-le sr b stop (stop + 1) last (omega arith) in
            let above : n ≤ stop = ground arith in
            rw e (omega arith, omega arith, omega arith, omega (arith, grows))
      ]

  -- The inner loop from a block of the segment on, also where nothing of it is built.
  pub inner :
      (size b n : ℕ) (sr : SegmentReader) (t : T) (d : fs.Disk)
      → n ≤ b
      → n ≤ sr.end
      → sr.end + 1 < 2 ^ 32
      → ((i : ℕ)
          → n ≤ i
          → i ≤ sr.end
          → open_segment_reader fs (segment_bounds i size).0 (segment_bounds i size).1 d ≡ ok sr)
      → (each_block fs v fn size (b + 1 - n) n t d
          ≡ after fs v fn size
              (b + 1 - past_stop (seg_stop_of sr b) n)
              (past_stop (seg_stop_of sr b) n)
              (visit_blocks fs v fn (seg_stop_of sr b + 1 - n + 1) sr (seg_stop_of sr b) n t d)
              d)
        × ((visit_blocks fs v fn (seg_stop_of sr b + 1 - n + 1) sr (seg_stop_of sr b) n t d).0
              ≡ none
            → (visit_blocks fs v fn (seg_stop_of sr b + 1 - n + 1) sr (seg_stop_of sr b) n t d).1
              ≡ past_stop (seg_stop_of sr b) n)
  unfolding visit_blocks
  inner size b n sr t d low here last opens =
      let stop = seg_stop_of sr b in
      let (to_b, to_end, to_last, _) = seg_stop_of_lem sr b in
      elim (Bool-cases (ltb stop n)) [
        | inl e ↦ let one : stop + 1 - n + 1 ≡ suc 0 = ground arith in rw (one, e) (refl, λ _. refl)
        | inr e ↦
            let k : ℕ = stop + 1 - n in
            let parts : b + 1 - n ≡ k + (b + 1 - (stop + 1)) = ground arith in
            rw (parts, e)
              (visit_blocks-each_block fs v fn size stop (b + 1 - (stop + 1)) sr d k (k + 1) n t
                (ground arith) (omega arith) (omega arith) to_last
                (λ i x y. opens i x (omega arith)))
      ]

  -- The reader of the segment of `n` serves the blocks up to the end of that segment.
  pub serves :
      (size b n : ℕ) (sr : SegmentReader) (d : fs.Disk)
      → 0 < size
      → b + size < 2 ^ 32
      → n ≤ b
      → open_segment_reader fs (segment_bounds n size).0 (segment_bounds n size).1 d ≡ ok sr
      → (n ≤ sr.end)
        × (sr.end + 1 < 2 ^ 32)
        × ((i : ℕ)
            → n ≤ i
            → i ≤ sr.end
            → open_segment_reader fs (segment_bounds i size).0 (segment_bounds i size).1 d ≡ ok sr)
  serves size b n sr d pos fits low opens =
      let (_, end) =
        open_segment_reader-bounds fs (segment_bounds n size).0 (segment_bounds n size).1 d sr
          opens in
      let first = base_le n size in
      let room = block_lt n size pos in
      let last = end_eq n size pos (omega arith) in
      (
        omega arith,
        omega arith,
        λ i x y. rw (same_segment n i size pos (omega arith) (omega arith)) opens,
      )
