-- ===== src/Query/Ranges/Step.antt =====
-- One layer of findRangeCoveringCommitments: what the fragments take, and what is left.
use smaran.Prelude.{ℕ, ◌+◌, ◌-◌, ◌*◌, ◌/◌, ◌%◌, ◌≤◌, ◌<◌, ◌≡◌, arith}
use smaran.Prelude.{false, ◌&&◌, List, [], ◌∷◌, ◌++◌, Option, none, some}
use smaran.Prelude.{ltb, leb, ◌==◌, if◌then◌else◌}
use native.Mathlib.Nat.{div-add-mod', mod-lt, mul-le-mul_right, div-lt_iff_lt-mul}
use smaran.Query.Ranges.{RangeCommitment, BlockRange, in_one_batch, left_fragment, right_fragment}
use smaran.Query.Ranges.{rest_start, rest_end}

abbrev pub within : ℕ → ℕ → ℕ → ℕ
within v start end = if leb start v && leb v end then 1 else 0

abbrev pub within_range : ℕ → Option BlockRange → ℕ
within_range v none = 0
within_range v (some r) = within v r.start r.end

-- How many of the commitments have `v` in their range.
unfoldable pub covered : ℕ → List RangeCommitment → ℕ
covered v [] = 0
covered v (c ∷ cs) = within_range v c.block_range + covered v cs

pub covered-append :
    (v : ℕ) (cs ds : List RangeCommitment) → covered v (cs ++ ds) ≡ covered v cs + covered v ds
unfolding covered
covered-append v [] ds = omega arith
covered-append v (c ∷ cs) ds = omega (arith, covered-append v cs ds)

module _ (size : ℕ) (wide : 1 < size) where
  pub div_facts : (n : ℕ) → (n / size * size + n % size ≡ n) × (n % size < size)
  div_facts n = (div-add-mod' n size, mod-lt n (omega arith))

  div_mono : (m n : ℕ) → m ≤ n → m / size ≤ n / size
  div_mono m n h =
      let below : n < (n / size + 1) * size = omega (arith, div_facts n) in
      omega (
        arith,
        (div-lt_iff_lt-mul {k = size} {x = m} {y = n / size + 1} (omega arith)).1 (omega arith),
      )

  abbrev pub rest_first : ℕ → ℕ
  rest_first sb = sb / size + (if sb % size == 0 then 0 else 1)

  abbrev pub rest_stop : ℕ → ℕ
  rest_stop eb = eb / size + (if eb % size == size - 1 then 1 else 0)

  pub rest_start_lem : (sb : ℕ) → rest_start size sb ≡ rest_first sb * size
  unfolding rest_start
  rest_start_lem sb = ground (arith, div_facts sb)

  pub rest_end_lem : (eb : ℕ) → 0 < rest_stop eb → rest_end size eb + 1 ≡ rest_stop eb * size
  unfolding rest_end
  rest_end_lem eb h = ground (arith, div_facts eb, mul-le-mul_right {m = 1} {n = eb / size} size)

  module _ (sb eb : ℕ) (le : sb ≤ eb) (split : in_one_batch size sb eb ≡ false) where
    pub rest_first-le : (rest_first sb ≤ rest_stop eb) × (0 < rest_stop eb)
    unfolding in_one_batch
    rest_first-le = (ground (arith, div_mono sb eb le), ground (arith, div_mono sb eb le))

  covered-left_fragment :
      (v layer sb : ℕ)
      → covered v (left_fragment size layer sb)
        ≡ (if leb sb v && ltb v (rest_start size sb) then 1 else 0)
  unfolding left_fragment rest_start covered
  covered-left_fragment v layer sb = ground (arith, div_facts sb)

  covered-right_fragment :
      (v layer eb : ℕ)
      → covered v (right_fragment size layer eb)
        ≡ (if leb (rest_stop eb * size) v && leb v eb then 1 else 0)
  unfolding right_fragment covered
  covered-right_fragment v layer eb = ground (arith, div_facts eb)

  rest_bounds : (sb eb : ℕ) → (sb ≤ rest_first sb * size) × (rest_stop eb * size ≤ eb + 1)
  rest_bounds sb eb = (ground (arith, div_facts sb), ground (arith, div_facts eb))

  sum_tests :
      (v sb eb a b e : ℕ)
      → sb ≤ a
      → a ≤ b
      → b ≤ eb + 1
      → e + 1 ≡ b
      → ((if leb sb v && ltb v a then 1 else 0) + (if leb b v && leb v eb then 1 else 0))
          + within v a e
        ≡ within v sb eb
  sum_tests v sb eb a b e h k m n = ground arith

  module _ (sb eb : ℕ) (le : sb ≤ eb) (split : in_one_batch size sb eb ≡ false) where
    -- The fragments and the rest of the range part the range.
    pub fragments_rest :
        (v layer : ℕ)
        → (covered v (left_fragment size layer sb) + covered v (right_fragment size layer eb))
            + within v (rest_start size sb) (rest_end size eb)
          ≡ within v sb eb
    fragments_rest v layer =
        let (ordered, positive) = rest_first-le sb eb le split in
        let (low, high) = rest_bounds sb eb in
        rw (covered-left_fragment v layer sb, covered-right_fragment v layer eb, rest_start_lem sb)
          (sum_tests v sb eb (rest_first sb * size) (rest_stop eb * size) (rest_end size eb) low
            (mul-le-mul_right size ordered) high (rest_end_lem eb positive))

    -- What is left is empty, or has two versions at least.
    pub rest_empty :
        ltb (rest_start size sb) (rest_end size eb) ≡ false → rest_end size eb < rest_start size sb
    rest_empty h =
        let (ordered, positive) = rest_first-le sb eb le split in
        ground (
          arith,
          rest_start_lem sb,
          rest_end_lem eb positive,
          mul-le-mul_right {m = rest_first sb + 1} {n = rest_stop eb} size,
          mul-le-mul_right {m = rest_first sb} {n = rest_stop eb} size ordered,
        )

    pub rest_end-le : rest_end size eb ≤ eb
    rest_end-le =
        let (ordered, positive) = rest_first-le sb eb le split in
        omega (arith, rest_end_lem eb positive, rest_bounds sb eb)
