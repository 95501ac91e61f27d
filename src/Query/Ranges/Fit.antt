-- ===== src/Query/Ranges/Fit.antt =====
-- Every commitment that findRangeCoveringCommitments returns has a range that fits its tree.
use smaran.Prelude.{ℕ, zero, suc, ◌+◌, ◌-◌, ◌*◌, ◌/◌, ◌≤◌, ◌<◌, ◌≡◌, refl, arith}
use smaran.Prelude.{true, false, List, [], ◌∷◌, ◌++◌, ltb, if◌then◌else◌, All, Bool-cases, inl, inr}
use native.Mathlib.Nat.{le_of_mul-le-mul_right, lt_of_mul-lt-mul_right, mul-le-mul_right}
use smaran.Query.Geometry.{batch_size, batch_size_pos, leaf_size, leaf_size_pos, leaf_size-suc}
use smaran.Query.Geometry.{leaves, batch_size_leaves}
use smaran.Query.Ranges.{RangeCommitment, BlockRange, commitment, cover_layers, in_one_batch}
use smaran.Query.Ranges.{left_fragment, right_fragment, rest_start, rest_end}
use smaran.Query.Ranges.{has_left_fragment, has_right_fragment}
use smaran.Query.Ranges.{find_range_covering_commitments}
use smaran.Query.Ranges.Step.{
  div_facts, rest_first, rest_stop, rest_first-le, rest_start_lem, rest_end_lem,
}
use smaran.Query.Interpolate.Exact.{Fits}
use mathlib.Core.Option.{some}

pub data FitsCommitment (c : RangeCommitment) : Type 0 where
  fits : {r : BlockRange} → c.block_range ≡ some r → Fits c.layer c.idx r → FitsCommitment c

All-append {ℓ κ} :
    {A : Type ℓ} (P : A → Type κ) (xs ys : List A) → All P xs → All P ys → All P (xs ++ ys)
All-append P [] ys h k = k
All-append P (x ∷ xs) ys h k = (h.0, All-append P xs ys h.1 k)

module _ (layer : ℕ) (deep : 1 ≤ layer) where
  wide : 1 < batch_size layer
  wide = omega (arith, batch_size_pos layer)

  -- Multiples of the tree size are multiples of the leaf size.
  whole_leaves : (q : ℕ) → q * batch_size layer ≡ q * leaves layer * leaf_size layer
  whole_leaves q = rw (batch_size_leaves layer deep) (omega arith)

  module _ (sb eb a b : ℕ) (sa : sb ≡ a * leaf_size layer) (ea : eb + 1 ≡ b * leaf_size layer)
      (lt : a < b) where
    first-low : sb / batch_size layer * leaves layer ≤ a
    first-low =
        le_of_mul-le-mul_right {k = leaf_size layer}
          (omega
            (arith, div_facts (batch_size layer) wide sb, whole_leaves (sb / batch_size layer)))
          (leaf_size_pos layer)

    first-high : a < (sb / batch_size layer + 1) * leaves layer
    first-high = lt_of_mul-lt-mul_right (leaf_size layer) (
        omega
          (arith, div_facts (batch_size layer) wide sb, whole_leaves (sb / batch_size layer + 1)))

    stop-low : eb / batch_size layer * leaves layer < b
    stop-low =
        lt_of_mul-lt-mul_right (leaf_size layer) (
          omega (arith, div_facts (batch_size layer) wide eb, whole_leaves (eb / batch_size layer)))

    stop-high : b ≤ (eb / batch_size layer + 1) * leaves layer
    stop-high =
        le_of_mul-le-mul_right {k = leaf_size layer}
          (omega
            (arith, div_facts (batch_size layer) wide eb, whole_leaves (eb / batch_size layer + 1)))
          (leaf_size_pos layer)

    one_fits :
        in_one_batch (batch_size layer) sb eb ≡ true
        → FitsCommitment (commitment (sb / batch_size layer) layer sb eb)
    one_fits h = fits refl (record {
      deep = deep;
      first = a;
      stop = b;
      starts = sa;
      ends = ea;
      nonempty = lt;
      low = first-low;
      high = rw same stop-high;
    })
      where
        same : sb / batch_size layer ≡ eb / batch_size layer
        same = unfold in_one_batch in ground (arith, h)

    left_fits : All FitsCommitment (left_fragment (batch_size layer) layer sb)
    unfolding left_fragment
    left_fits = elim (Bool-cases (has_left_fragment (batch_size layer) sb)) [
      | inl e ↦ rw e (fits refl left, tt)
      | inr e ↦ rw e tt
    ]
      where
        q : ℕ
        q = sb / batch_size layer

        left : Fits layer q (record { start = sb; end = (q + 1) * batch_size layer - 1 })
        left = record {
          deep = deep;
          first = a;
          stop = (q + 1) * leaves layer;
          starts = sa;
          ends = omega (arith, whole_leaves (q + 1), wide);
          nonempty = first-high;
          low = first-low;
          high = omega arith;
        }

    right_fits : All FitsCommitment (right_fragment (batch_size layer) layer eb)
    unfolding right_fragment
    right_fits = elim (Bool-cases (has_right_fragment (batch_size layer) eb)) [
      | inl e ↦ rw e (fits refl right, tt)
      | inr e ↦ rw e tt
    ]
      where
        q : ℕ
        q = eb / batch_size layer

        right : Fits layer q (record { start = q * batch_size layer; end = eb })
        right = record {
          deep = deep;
          first = q * leaves layer;
          stop = b;
          starts = whole_leaves q;
          ends = ea;
          nonempty = stop-low;
          low = omega arith;
          high = stop-high;
        }

lt_of_test : (a b : ℕ) → ltb a b ≡ true → a < b
lt_of_test a b h = ground arith

upper_fits :
    (sb eb : ℕ) (upper : List RangeCommitment)
    → (ltb sb eb ≡ true → All FitsCommitment upper)
    → All FitsCommitment (if ltb sb eb then upper else [])
upper_fits sb eb upper more = elim (Bool-cases (ltb sb eb)) [
  | inl e ↦ rw e (more e)
  | inr e ↦ rw e tt
]

-- What is left for the next layer is made of whole leaves of that layer.
rest_leaves :
    (layer sb eb a b : ℕ)
    → sb ≡ a * leaf_size (suc layer)
    → eb + 1 ≡ b * leaf_size (suc layer)
    → a < b
    → in_one_batch (batch_size (suc layer)) sb eb ≡ false
    → rest_start (batch_size (suc layer)) sb < rest_end (batch_size (suc layer)) eb
    → (c d : ℕ) × (rest_start (batch_size (suc layer)) sb ≡ c * leaf_size (suc (suc layer)))
      × (rest_end (batch_size (suc layer)) eb + 1 ≡ d * leaf_size (suc (suc layer)))
      × (c < d)
rest_leaves layer sb eb a b sa ea lt split more =
    let size = batch_size (suc layer) in
    let w = wide (suc layer) (omega arith) in
    let pos = leaf_size_pos (suc layer) in
    let le : sb ≤ eb =
      omega (arith, mul-le-mul_right {m = a + 1} {n = b} (leaf_size (suc layer)) (omega arith)) in
    let starts = rest_start_lem size w sb in
    let ends = rest_end_lem size w eb (rest_first-le size w sb eb le split).1 in
    (
      rest_first size w sb,
      rest_stop size w eb,
      rw (leaf_size-suc layer) starts,
      rw (leaf_size-suc layer) ends,
      lt_of_mul-lt-mul_right size (omega (arith, starts, ends)),
    )

cover_layers_fits :
    (above layer sb eb a b : ℕ)
    → sb ≡ a * leaf_size (suc layer)
    → eb + 1 ≡ b * leaf_size (suc layer)
    → a < b
    → All FitsCommitment (cover_layers above sb eb (suc layer))
unfolding cover_layers
cover_layers_fits zero layer sb eb a b sa ea lt =
    elim (Bool-cases (in_one_batch (batch_size (suc layer)) sb eb)) [
      | inl e ↦ rw e (one_fits (suc layer) (omega arith) sb eb a b sa ea lt e, tt)
      | inr e ↦ rw e (
          All-append FitsCommitment _ _ (left_fits (suc layer) (omega arith) sb eb a b sa ea lt)
            (right_fits (suc layer) (omega arith) sb eb a b sa ea lt))
    ]
cover_layers_fits (suc above) layer sb eb a b sa ea lt =
    let size = batch_size (suc layer) in
    elim (Bool-cases (in_one_batch size sb eb)) [
      | inl e ↦ rw e (one_fits (suc layer) (omega arith) sb eb a b sa ea lt e, tt)
      | inr e ↦
          let upper = cover_layers above (rest_start size sb) (rest_end size eb) (suc layer + 1) in
          rw e (
            All-append FitsCommitment _ _ (left_fits (suc layer) (omega arith) sb eb a b sa ea lt) (
              All-append FitsCommitment _ _
                (right_fits (suc layer) (omega arith) sb eb a b sa ea lt)
                (upper_fits (rest_start size sb) (rest_end size eb) upper (λ more.
                  let (c, d, sc, ed, less) =
                    rest_leaves layer sb eb a b sa ea lt e
                      (lt_of_test (rest_start size sb) (rest_end size eb) more) in
                  let next : suc layer + 1 ≡ suc (suc layer) = omega arith in
                  rw next (
                    cover_layers_fits above (suc layer) (rest_start size sb) (rest_end size eb) c d
                      sc ed less)))))
    ]

-- Each commitment that findRangeCoveringCommitments returns for a non-empty range has a range that lies
-- in the tree which its layer and index name, and that starts and ends with whole leaves of the tree.
pub find_range_covering_commitments-Fits :
    (max_layer sb eb : ℕ)
    → sb ≤ eb
    → All FitsCommitment (find_range_covering_commitments max_layer sb eb 1)
unfolding find_range_covering_commitments
find_range_covering_commitments-Fits max_layer sb eb le =
    cover_layers_fits (max_layer - 1) 0 sb eb sb (eb + 1) (unfold leaf_size in ground arith)
      (unfold leaf_size in ground arith) (omega arith)
