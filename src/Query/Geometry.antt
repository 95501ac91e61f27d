-- ===== src/Query/Geometry.antt =====
-- internal/kt/tree/types.go and internal/kt/proof/helpers.go: how many versions a tree of a layer spans.
use smaran.Prelude.{ℕ, zero, suc, ◌-◌, ◌*◌, ◌^◌, ◌≤◌, ◌<◌, ◌≡◌, refl, arith, ltb, if◌then◌else◌}
use native.Mathlib.Nat.{pow-suc, one-le-pow}

abbrev pub l1_batch_size : ℕ
l1_batch_size = 2048

abbrev pub l2_batch_size : ℕ
l2_batch_size = 1365

-- Pow goes through float64; its results here stay below 2 ^ 53, where that is exact.
unfoldable pub pow : ℕ → ℕ → ℕ
pow base exponent = base ^ exponent

-- tree.L1BatchSize * Pow(tree.L2BatchSize, layer-1)
unfoldable pub batch_size : ℕ → ℕ
unfolding pow
batch_size layer = l1_batch_size * pow l2_batch_size (layer - 1)

pub batch_size_one : batch_size 1 ≡ 2048
unfolding batch_size
batch_size_one = refl

pub batch_size_suc : (layer : ℕ) → batch_size (suc (suc layer)) ≡ batch_size (suc layer) * 1365
unfolding batch_size
batch_size_suc layer =
    let e : suc (suc layer) - 1 ≡ suc layer = omega arith in
    let e' : suc layer - 1 ≡ layer = omega arith in rw (e, e', pow-suc) (omega arith)

pub batch_size_pos : (layer : ℕ) → 2047 < batch_size layer
unfolding batch_size
batch_size_pos layer = omega (arith, one-le-pow (layer - 1) 1365 (omega arith))

-- The versions below one leaf of a tree of a layer: one in layer 1, a tree of the layer below elsewhere.
-- `denom` of FindNodesToInterpolate.
unfoldable pub leaf_size : ℕ → ℕ
unfolding pow
leaf_size layer = if ltb 1 layer then l1_batch_size * pow l2_batch_size (layer - 2) else 1

unfoldable pub leaves : ℕ → ℕ
leaves layer = if ltb 1 layer then l2_batch_size else l1_batch_size

pub leaf_size_pos : (layer : ℕ) → 0 < leaf_size layer
unfolding leaf_size
leaf_size_pos layer = ground (arith, one-le-pow (layer - 2) 1365 (omega arith))

pub leaf_size-suc : (layer : ℕ) → leaf_size (suc (suc layer)) ≡ batch_size (suc layer)
unfolding leaf_size batch_size
leaf_size-suc layer =
    let e : suc (suc layer) - 2 ≡ layer = omega arith in
    let e' : suc layer - 1 ≡ layer = omega arith in rw (e, e') (ground arith)

pub batch_size_leaves : (layer : ℕ) → 1 ≤ layer → batch_size layer ≡ leaves layer * leaf_size layer
batch_size_leaves zero h = absurd (omega arith)
batch_size_leaves (suc zero) h = unfold leaves leaf_size in rw batch_size_one
batch_size_leaves (suc (suc layer)) h =
    rw (batch_size_suc layer, leaf_size-suc layer) (unfold leaves in ground arith)
