-- ===== src/Query/Complete.antt =====
-- The trees and the nodes that a range query opens, taken together.
use smaran.Prelude.{ℕ, ◌+◌, ◌-◌, ◌*◌, ◌/◌, ◌≤◌, ◌<◌, ◌≡◌, refl, sym, ap, ◌∙◌, arith, false}
use smaran.Prelude.{
  Option, none, some, List, [], ◌∷◌, ◌==◌, if◌then◌else◌, All, Bool-cases, inl, inr,
}
use native.Mathlib.Nat.{div-add-mod', mod-lt, mul-le-mul_right, div-eq_of_lt-le}
use smaran.Node.Under.{hits}
use smaran.Query.Geometry.{batch_size, batch_size_pos, leaf_size, leaves, batch_size_leaves}
use smaran.Query.Ranges.{RangeCommitment, BlockRange, find_range_covering_commitments}
use smaran.Query.Ranges.Step.{within, covered}
use smaran.Query.Ranges.Exact.{find_range_covering_commitments-exact}
use smaran.Query.Ranges.Fit.{FitsCommitment, fits, find_range_covering_commitments-Fits}
use smaran.Query.Interpolate.{range_nodes}
use smaran.Query.Interpolate.Exact.{Fits, range_nodes-exact}

abbrev pub hits_of : ℕ → Option (List ℕ) → ℕ
hits_of x none = 0
hits_of x (some out) = hits x out

-- How many nodes that are opened in the tree of `c` stand for the version `v`.
pub opened : ℕ → RangeCommitment → ℕ
opened v c =
    if v / batch_size c.layer == c.idx
    then hits_of (leaves c.layer - 1 + (v / leaf_size c.layer - c.idx * leaves c.layer))
        (range_nodes c.layer c.idx c.block_range)
    else 0

pub total_opened : ℕ → List RangeCommitment → ℕ
unfolding opened
total_opened v [] = 0
total_opened v (c ∷ cs) = opened v c + total_opened v cs

module _ (v layer idx : ℕ) (r : BlockRange) (f : Fits layer idx r) where
  range_in_tree : (idx * batch_size layer ≤ r.start) × (r.end < (idx + 1) * batch_size layer)
  range_in_tree =
      let u = leaf_size layer in
      rw (batch_size_leaves layer f.deep) (
        omega (arith, f.starts, mul-le-mul_right {m = idx * leaves layer} {n = f.first} u f.low),
        omega
            (arith, f.ends, mul-le-mul_right {m = f.stop} {n = (idx + 1) * leaves layer} u f.high),
      )

  in_tree :
      v / batch_size layer ≡ idx → (idx * batch_size layer ≤ v) × (v < (idx + 1) * batch_size layer)
  in_tree e =
      let pos : 0 < batch_size layer = omega (arith, batch_size_pos layer) in
      let e' : idx * batch_size layer ≡ v / batch_size layer * batch_size layer = rw e in
      let parts = div-add-mod' v (batch_size layer) in
      (omega (arith, e', parts), omega (arith, e', parts, mod-lt v pos))

  not_in_tree : (v / batch_size layer == idx) ≡ false → within v r.start r.end ≡ 0
  not_in_tree e =
      let quotient = λ (h : idx * batch_size layer ≤ v) (k : v < (idx + 1) * batch_size layer).
        div-eq_of_lt-le {k = idx} (batch_size layer) h k in
      ground (arith, range_in_tree, quotient)

  opened_one :
      opened v
        (record { idx = idx; layer = layer; block_range = some r; dependent_commitments = [] })
      ≡ within v r.start r.end
  unfolding opened
  opened_one = elim (Bool-cases (v / batch_size layer == idx)) [
    | inl e ↦
        let (low, high) = in_tree (ground arith) in
        let (out, run, count) = range_nodes-exact layer idx r f v low high in rw (e, run) count
    | inr e ↦ rw e (sym (not_in_tree e))
  ]

opened-FitsCommitment :
    (v : ℕ) (c : RangeCommitment) → FitsCommitment c → opened v c + 0 ≡ covered v (c ∷ [])
unfolding opened covered
opened-FitsCommitment v c (fits {r} e f) =
    rw e (ap (λ (k : ℕ). k + 0) (unfold opened in opened_one v c.layer c.idx r f))

total_opened-covered :
    (v : ℕ) (cs : List RangeCommitment) → All FitsCommitment cs → total_opened v cs ≡ covered v cs
unfolding total_opened covered
total_opened-covered v [] h = refl
total_opened-covered v (c ∷ cs) h =
    let first = opened-FitsCommitment v c h.0 in omega (arith, first, total_opened-covered v cs h.1)

-- For a non-empty range of versions that ends before the last version of the first tree of the top
-- layer, the commitments that are found and the nodes that are opened in their trees stand for each
-- version of the range exactly once, and for no version outside.
pub query_complete :
    (max_layer sb eb v : ℕ)
    → 1 ≤ max_layer
    → sb ≤ eb
    → eb + 1 < batch_size max_layer
    → total_opened v (find_range_covering_commitments max_layer sb eb 1) ≡ within v sb eb
query_complete max_layer sb eb v pos le h =
    total_opened-covered v _ (find_range_covering_commitments-Fits max_layer sb eb le)
    ∙ find_range_covering_commitments-exact max_layer sb eb v pos le h
