-- ===== src/Query/Versions.antt =====
-- BinarySearchVersionByBlockNumber and BlockRangeToVersionRange: from block numbers to versions.
-- The database is a parameter: the block interval of each historical version, and the current balance.
pub mod Search
pub mod Meets
use smaran.Prelude.{ℕ, zero, suc, ◌+◌, ◌-◌, ◌/◌, ◌%◌, ◌^◌, Bool, ◌&&◌, Option, some, none}
use smaran.Prelude.{ltb, leb, ◌==◌, if◌then◌else◌}
use smaran.Balance.{CurrentBalance, HistoricalBalance}

-- `missing` is the error "version not found", `stuck` the end of the fuel.
pub data Found : Type 0 where
  found : ℕ → Found
  missing stuck : Found

-- tree.GetHistoricalBalance of one account, by version.
abbrev pub History : Type 0
History = ℕ → HistoricalBalance

-- `L + R` and `m + 1` wrap as uint64; `m - 1` is only used for an `m` other than 0.
unfoldable pub search_loop : History → ℕ → ℕ → ℕ → ℕ → Found
search_loop history block_number zero l r = stuck
search_loop history block_number (suc fuel) l r =
    let m = (l + r) % 2 ^ 64 / 2 in
    let below = search_loop history block_number fuel l (m - 1) in
    let above = search_loop history block_number fuel ((m + 1) % 2 ^ 64) r in
    if leb l r
    then (if leb (history m).current.start_block block_number
          && leb block_number (history m).end_block
        then found m
        else if ltb block_number (history m).current.start_block
        then (if m == 0 then missing else below)
        else above)
    else missing

unfoldable pub binary_search_version : History → ℕ → ℕ → ℕ → Found
unfolding search_loop
binary_search_version history block_number search_start search_end =
    search_loop history block_number (search_end + 2 - search_start) search_start search_end

pub data RangeError : Type 0 where
  account_not_found no_history out_of_bounds version_not_found beyond_history : RangeError

pub data VersionRange : Type 0 where
  versions : ℕ → ℕ → VersionRange
  fail : RangeError → VersionRange

-- The start of the range, once its end is known.
unfoldable pub start_version : History → CurrentBalance → ℕ → ℕ → VersionRange
unfolding binary_search_version
start_version history cb starting_block ending_version =
    if ltb starting_block (history 0).current.start_block
    then versions 0 ending_version
    else if leb cb.start_block starting_block
    then fail beyond_history
    else elim (binary_search_version history starting_block 0 ending_version) [
      | found starting_version ↦ versions starting_version ending_version
      | missing ↦ fail version_not_found
      | stuck ↦ fail version_not_found
    ]

unfoldable pub block_range_to_version_range : History → Option CurrentBalance → ℕ → ℕ → VersionRange
unfolding start_version binary_search_version
block_range_to_version_range history none starting_block ending_block = fail account_not_found
block_range_to_version_range history (some cb) starting_block ending_block =
    if cb.version == 0
    then fail no_history
    else if ltb ending_block (history 0).current.start_block
    then fail out_of_bounds
    else if leb cb.start_block ending_block
    then start_version history cb starting_block (cb.version - 1)
    else elim (binary_search_version history ending_block 0 (cb.version - 1)) [
      | found ending_version ↦ start_version history cb starting_block ending_version
      | missing ↦ fail version_not_found
      | stuck ↦ fail version_not_found
    ]
