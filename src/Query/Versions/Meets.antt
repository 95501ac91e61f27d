-- ===== src/Query/Versions/Meets.antt =====
-- BlockRangeToVersionRange returns the versions whose blocks meet the blocks of the query.
use smaran.Prelude.{Bool, false, ℕ, ◌+◌, ◌-◌, ◌^◌, ◌≤◌, ◌<◌, ◌≡◌, arith, leb, ltb, ◌&&◌, some, ◌==◌}
use smaran.Prelude.{Bool-cases, inl, inr}
use smaran.Balance.{CurrentBalance}
use smaran.Query.Versions.{
  History, VersionRange, versions, start_version, block_range_to_version_range,
}
use smaran.Query.Versions.Search.{IsChain, chain_before, binary_search_version-found, locate}

-- The blocks of version `v` and the blocks `first` to `last` have one in common.
abbrev pub meets : History → ℕ → ℕ → ℕ → Bool
meets history first last v =
    leb (history v).current.start_block last && leb first (history v).end_block

module _ (history : History) (cb : CurrentBalance) (chain : IsChain history cb.version)
    (recorded : 0 < cb.version) (small : cb.version ≤ 2 ^ 63)
    (current : (history (cb.version - 1)).end_block + 1 ≡ cb.start_block) (first last : ℕ) where
  before_current : (v : ℕ) → v < cb.version → (history v).end_block < cb.start_block
  before_current v h = ground (
    arith,
    chain_before history cb.version chain v (cb.version - 1),
    chain.ordered (cb.version - 1),
  )

  up_to :
      (e v : ℕ)
      → e < cb.version
      → v < cb.version
      → (history e).current.start_block ≤ last
      → last ≤ (history e).end_block
      → leb (history v).current.start_block last ≡ leb v e
  up_to e v he hv s t = ground (
    arith,
    chain_before history cb.version chain v e,
    chain_before history cb.version chain e v,
    chain.ordered v,
  )

  from :
      (s v : ℕ)
      → s < cb.version
      → v < cb.version
      → (history s).current.start_block ≤ first
      → first ≤ (history s).end_block
      → leb first (history v).end_block ≡ leb s v
  from s v hs hv p q = ground (
    arith,
    chain_before history cb.version chain v s,
    chain_before history cb.version chain s v,
    chain.ordered v,
  )

  -- Once the last version is known, the start is found and the range is the right one.
  abbrev Answer : VersionRange → Type 0
  Answer result =
      (s : ℕ) × (e : ℕ) × (result ≡ versions s e)
      × (e < cb.version)
      × ((v : ℕ) → v < cb.version → meets history first last v ≡ (leb s v && leb v e))

  start_version-Answer :
      (e : ℕ)
      → e < cb.version
      → first < cb.start_block
      → ((v : ℕ) → v < cb.version → leb (history v).current.start_block last ≡ leb v e)
      → first ≤ (history e).end_block
      → Answer (start_version history cb first e)
  unfolding start_version
  start_version-Answer e he early upper h =
      elim (Bool-cases (ltb first (history 0).current.start_block)) [
        | inl clamp ↦ (
          0,
          e,
          rw clamp,
          he,
          λ v hv. ground (
            arith,
            upper v hv,
            chain_before history cb.version chain 0 v,
            chain.ordered v,
            chain.ordered 0,
          ),
        )
        | inr inside ↦
            let (s, le, p, q) = locate history cb.version chain e first he (ground arith) h in
            let run =
              binary_search_version-found history cb.version chain e s first he (omega arith) le p
                q in
            let late : leb cb.start_block first ≡ false = ground arith in
            (
              s,
              e,
              rw (inside, late, run),
              he,
              λ v hv. ground (arith, upper v hv, from s v (omega arith) hv p q),
            )
      ]

  module _ (le : first ≤ last) (early : first < cb.start_block)
      (late : (history 0).current.start_block ≤ last) where
    block_range-Answer : Answer (block_range_to_version_range history (some cb) first last)
    unfolding block_range_to_version_range
    block_range-Answer =
        let some_version : (cb.version == 0) ≡ false = ground arith in
        let not_before : ltb last (history 0).current.start_block ≡ false = ground arith in
        rw (some_version, not_before)
          (elim (Bool-cases (leb cb.start_block last)) [
            | inl open_end ↦ rw open_end (
                start_version-Answer (cb.version - 1) (omega arith) early
                  (λ v hv. ground (arith, before_current v hv, chain.ordered v)) (omega arith))
            | inr closed_end ↦
                let (e, h, p, q) =
                  locate history cb.version chain (cb.version - 1) last (omega arith) late
                    (ground arith) in
                let run =
                  binary_search_version-found history cb.version chain (cb.version - 1) e last
                    (omega arith) (omega arith) h p q in
                rw (closed_end, run)
                  (start_version-Answer e (omega arith) early
                    (λ v hv. up_to e v (omega arith) hv p q) (omega arith))
          ])

    -- On a history without gaps up to the current balance, whose version is from 1 to 2 ^ 63, for a query
    -- whose first block is not after its last, whose last block is not before the history and whose
    -- first block is before the current balance, BlockRangeToVersionRange returns a range of historical
    -- versions, and a historical version is in it exactly if its blocks have one in common with the
    -- blocks of the query.
    pub block_range_to_version_range-meets :
        (v : ℕ)
        → v < cb.version
        → (s : ℕ) × (e : ℕ) × (block_range_to_version_range history (some cb) first last
            ≡ versions s e)
          × (e < cb.version)
          × (meets history first last v ≡ (leb s v && leb v e))
    block_range_to_version_range-meets v hv =
        let (s, e, run, bound, all) = block_range-Answer in (s, e, run, bound, all v hv)
