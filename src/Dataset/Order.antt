-- ===== src/Dataset/Order.antt =====
-- IterateRange goes from segment to segment as if it went from block to block.
use smaran.Prelude.{ℕ, zero, suc, ◌+◌, ◌%◌, ◌^◌, ◌<◌, ◌≤◌, ◌≡◌, refl, arith}
use smaran.Prelude.{List, Option, some, none, Bool, true, false, ltb, ltb_of_lt, ltb_of_le}
use smaran.Prelude.{Option-cases, inl, inr}
use native.Mathlib.Nat.{mod-eq_of_lt}
use smaran.Dataset.{Entry, FileSystem, Varint, segment_bounds}
use smaran.Dataset.Reader.{ok, SegmentReader, open_segment_reader, get_block}
use smaran.Dataset.Iterate.{Fault, handle, visit_blocks, each_block}

pub open_segment_reader-bounds :
    (fs : FileSystem) (base end : ℕ) (d : fs.Disk) (sr : SegmentReader)
    → open_segment_reader fs base end d ≡ ok sr
    → (sr.base ≡ base) × (sr.end ≡ end)
unfolding open_segment_reader
open_segment_reader-bounds fs base end d sr h = (ground arith, ground arith)

module _ (fs : FileSystem) (v : Varint) {T : Type 0} (fn : ℕ → List Entry → T → Bool × T) where
  -- How the blocks go on after the inner loop.
  abbrev pub after : ℕ → ℕ → ℕ → Option Fault × ℕ × T → fs.Disk → Option Fault × T
  after size m n (some e, i, t) d = (some e, t)
  after size m n (none, i, t) d = each_block fs v fn size m n t d

  -- The inner loop handles the blocks up to `stop`, one by one.
  pub visit_blocks-each_block :
      (size stop m : ℕ) (sr : SegmentReader) (d : fs.Disk) (k fuel n : ℕ) (t : T)
      → n + k ≡ stop + 1
      → stop + 1 < 2 ^ 32
      → k < fuel
      → stop ≤ sr.last_written
      → ((i : ℕ)
          → n ≤ i
          → i ≤ stop
          → open_segment_reader fs (segment_bounds i size).0 (segment_bounds i size).1 d ≡ ok sr)
      → (each_block fs v fn size (k + m) n t d
          ≡ after size m (stop + 1) (visit_blocks fs v fn fuel sr stop n t d) d)
        × ((visit_blocks fs v fn fuel sr stop n t d).0 ≡ none
            → (visit_blocks fs v fn fuel sr stop n t d).1 ≡ stop + 1)
  unfolding visit_blocks each_block
  visit_blocks-each_block size stop m sr d zero zero n t h last enough built opens =
      absurd (omega arith)
  visit_blocks-each_block size stop m sr d (suc k) zero n t h last enough built opens =
      absurd (omega arith)
  visit_blocks-each_block size stop m sr d zero (suc fuel) n t h last enough built opens =
      let past : ltb stop n ≡ true = ltb_of_lt stop n (omega arith) in
      let same : n ≡ stop + 1 = omega arith in
      let none_more : 0 + m ≡ m = omega arith in rw (past, none_more) (rw same (refl, λ _. refl))
  visit_blocks-each_block size stop m sr d (suc k) (suc fuel) n t h last enough built opens =
      let inside : ltb stop n ≡ false = ltb_of_le stop n (omega arith) in
      let written : ltb sr.last_written n ≡ false = ltb_of_le sr.last_written n (omega arith) in
      let next : (n + 1) % 2 ^ 32 ≡ n + 1 = mod-eq_of_lt (omega arith) in
      let more : suc k + m ≡ suc (k + m) = omega arith in
      elim (Option-cases (handle fs v fn n (get_block fs v sr n d) t).0) [
        | inl e ↦
            let rest =
              visit_blocks-each_block size stop m sr d k fuel (n + 1)
                (handle fs v fn n (get_block fs v sr n d) t).1 (omega arith) last (omega arith)
                built (λ i low high. opens i (omega arith) high) in
            rw (inside, more, each_block, opens n (omega arith) (omega arith), written, e, next)
              rest
        | inr (f, e) ↦
            rw (inside, more, each_block, opens n (omega arith) (omega arith), written, e)
              (refl, λ w. absurd (cc))
      ]

  -- Blocks that are not built are passed over.
  pub each_block-unbuilt :
      (size m : ℕ) (sr : SegmentReader) (d : fs.Disk) (k n : ℕ) (t : T)
      → sr.last_written < n
      → ((i : ℕ)
          → n ≤ i
          → i < n + k
          → open_segment_reader fs (segment_bounds i size).0 (segment_bounds i size).1 d ≡ ok sr)
      → each_block fs v fn size (k + m) n t d ≡ each_block fs v fn size m (n + k) t d
  unfolding each_block
  each_block-unbuilt size m sr d zero n t late opens =
      let a : 0 + m ≡ m = omega arith in let b : n + 0 ≡ n = omega arith in rw (a, b) refl
  each_block-unbuilt size m sr d (suc k) n t late opens =
      let more : suc k + m ≡ suc (k + m) = omega arith in
      let passed : ltb sr.last_written n ≡ true = ltb_of_lt sr.last_written n late in
      let place : n + suc k ≡ n + 1 + k = omega arith in
      rw (more, each_block, opens n (omega arith) (omega arith), passed, place)
        (each_block-unbuilt size m sr d k (n + 1) t (omega arith)
          (λ i low high. opens i (omega arith) (omega arith)))
