-- ===== src/Dataset/Bounds.antt =====
-- The segment of a block, segmentBounds of helpers.go.
use smaran.Prelude.{ℕ, ◌+◌, ◌-◌, ◌*◌, ◌/◌, ◌^◌, ◌<◌, ◌≤◌, ◌≡◌, ◌↔◌, ap, refl, arith}
use native.Mathlib.Nat.{div-add-mod', mod-lt, div-eq_of_lt-le}
use smaran.Dataset.{segment_bounds}

pub base_le : (block size : ℕ) → (segment_bounds block size).0 ≤ block
unfolding segment_bounds
base_le block size = omega (arith, div-add-mod' block size)

pub block_lt : (block size : ℕ) → 0 < size → block < (segment_bounds block size).0 + size
unfolding segment_bounds
block_lt block size h = omega (arith, div-add-mod' block size, mod-lt block h)

-- Where the segment ends before 2 ^ 32, the last block is not wrapped.
pub end_eq :
    (block size : ℕ)
    → 0 < size
    → (segment_bounds block size).0 + size ≤ 2 ^ 32
    → (segment_bounds block size).1 ≡ (segment_bounds block size).0 + size - 1
unfolding segment_bounds
end_eq block size h fits = omega arith

pub same_segment :
    (block n size : ℕ)
    → 0 < size
    → (segment_bounds block size).0 ≤ n
    → n < (segment_bounds block size).0 + size
    → segment_bounds n size ≡ segment_bounds block size
unfolding segment_bounds
same_segment block n size h low high =
    let next : (block / size + 1) * size ≡ block / size * size + size = omega arith in
    let same : n / size ≡ block / size =
      div-eq_of_lt-le {k = block / size} size {m = n} low (omega (arith, next)) in
    rw same refl

-- For a positive segment size, and a block whose segment ends before 2 ^ 32: a block number lies
-- between the bounds of that segment exactly if it has the same bounds.
pub segment_bounds_iff :
    (block n size : ℕ)
    → 0 < size
    → (segment_bounds block size).0 + size ≤ 2 ^ 32
    → (((segment_bounds block size).0 ≤ n) × (n ≤ (segment_bounds block size).1))
      ↔ (segment_bounds n size ≡ segment_bounds block size)
segment_bounds_iff block n size h fits = (
  λ (low, high). same_segment block n size h low (omega (arith, end_eq block size h fits)),
  λ same. (
    omega (arith, base_le n size, ap (λ (p : ℕ × ℕ). p.0) same),
    omega (arith, block_lt n size h, ap (λ (p : ℕ × ℕ). p.0) same, end_eq block size h fits),
  ),
)

pub same_base :
    (block n size : ℕ)
    → (segment_bounds block size).0 ≡ (segment_bounds n size).0
    → segment_bounds block size ≡ segment_bounds n size
unfolding segment_bounds
same_base block n size h = rw h refl
