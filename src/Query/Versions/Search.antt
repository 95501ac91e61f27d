-- ===== src/Query/Versions/Search.antt =====
-- The binary search finds the version whose blocks hold the block number.
use smaran.Prelude.{ℕ, zero, suc, ◌+◌, ◌-◌, ◌/◌, ◌%◌, ◌^◌, ◌≤◌, ◌<◌, ◌≡◌, arith}
use native.Mathlib.Nat.{mod-eq_of_lt}
use native.Mathlib.Decide.{dec_lt}
use smaran.Query.Versions.{History, found, search_loop, binary_search_version}

-- The versions below `count` follow one another without a gap.
pub record IsChain (history : History) (count : ℕ) : Type 0 where
  pub ordered : (v : ℕ) → v < count → (history v).current.start_block ≤ (history v).end_block
  pub next :
      (v : ℕ) → suc v < count → (history v).end_block + 1 ≡ (history (suc v)).current.start_block

module _ (history : History) (count : ℕ) (chain : IsChain history count) where
  -- A later version starts after an earlier one ends.
  pub chain_lt :
      (v d : ℕ)
      → v + suc d < count
      → (history v).end_block < (history (v + suc d)).current.start_block
  chain_lt v zero h =
      let e : v + 1 ≡ suc v = omega arith in rw e (omega (arith, chain.next v (omega arith)))
  chain_lt v (suc d) h =
      let e : v + suc (suc d) ≡ suc (v + suc d) = omega arith in
      rw e (
        omega
          (arith, chain_lt v d (omega arith), chain.ordered (v + suc d), chain.next (v + suc d)))

  pub chain_before :
      (v w : ℕ) → v < w → w < count → (history v).end_block < (history w).current.start_block
  chain_before v w h k =
      let e : w ≡ v + suc (w - v - 1) = omega arith in rw e (chain_lt v (w - v - 1) (omega arith))

  search_loop-found :
      (fuel l r v block_number : ℕ)
      → l ≤ v
      → v ≤ r
      → r < count
      → r < 2 ^ 63
      → r + 1 < fuel + l
      → (history v).current.start_block ≤ block_number
      → block_number ≤ (history v).end_block
      → search_loop history block_number fuel l r ≡ found v
  unfolding search_loop
  search_loop-found zero l r v block_number lv vr rc small f s e = absurd (omega arith)
  search_loop-found (suc fuel) l r v block_number lv vr rc small f s e =
      let sum : (l + r) % 2 ^ 64 ≡ l + r = mod-eq_of_lt (omega arith) in
      let step : ((l + r) / 2 + 1) % 2 ^ 64 ≡ (l + r) / 2 + 1 = mod-eq_of_lt (omega arith) in
      rw (sum, step)
        (ground (
          arith,
          chain_before v ((l + r) / 2),
          chain_before ((l + r) / 2) v,
          chain.ordered ((l + r) / 2),
          search_loop-found fuel l ((l + r) / 2 - 1) v block_number,
          search_loop-found fuel ((l + r) / 2 + 1) r v block_number,
        ))

  -- On a history without gaps the search over the versions 0 to `last`, for a `last` below 2 ^ 63, ends,
  -- and returns the version whose blocks hold the block number.
  pub binary_search_version-found :
      (last v block_number : ℕ)
      → last < count
      → last < 2 ^ 63
      → v ≤ last
      → (history v).current.start_block ≤ block_number
      → block_number ≤ (history v).end_block
      → binary_search_version history block_number 0 last ≡ found v
  unfolding binary_search_version
  binary_search_version-found last v block_number k small h s e =
      search_loop-found (last + 2 - 0) 0 last v block_number (omega arith) h k small (omega arith) s
        e

  -- Each block from the first to the end of version `k` belongs to a version.
  pub locate :
      (k block_number : ℕ)
      → k < count
      → (history 0).current.start_block ≤ block_number
      → block_number ≤ (history k).end_block
      → (v : ℕ) × (v ≤ k)
        × ((history v).current.start_block ≤ block_number)
        × (block_number ≤ (history v).end_block)
  locate zero b h s e = (0, omega arith, s, e)
  locate (suc k) b h s e = elim (dec_lt b (history (suc k)).current.start_block) [
    | yes earlier ↦
        let (v, le, p, q) = locate k b (omega arith) s (omega (arith, chain.next k h)) in
        (v, omega arith, p, q)
    | no later ↦ (suc k, omega arith, omega arith, e)
  ]
