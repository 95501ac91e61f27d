-- ===== src/Balance.antt =====
-- internal/tree/balance.go: the states of an account, and their 48 and 56 bytes.
-- A balance is a non-negative big.Int, a Version or block number a uint64.
pub mod RoundTrip
mod Runs
use smaran.Prelude.{ℕ, ◌+◌, ◌-◌, Option, some, none, List, length, take, drop, replicate}
use smaran.Prelude.{◌==◌, if◌then◌else◌}
use smaran.Bytes.{be_bytes, be_value, big_bytes, blit}

pub record CurrentBalance : Type 0 where
  pub version : ℕ
  pub balance : ℕ
  pub start_block : ℕ

pub record HistoricalBalance : Type 0 where
  pub current : CurrentBalance
  pub end_block : ℕ

-- [Version(8)|Balance(32)|StartBlock(8)]
unfoldable pub marshal_current : CurrentBalance → List ℕ
marshal_current cb =
    let out = blit 0 (be_bytes 8 cb.version) (replicate 48 0) in
    let b = big_bytes cb.balance in
    let out' = blit (8 + 32 - length b) b out in blit 40 (be_bytes 8 cb.start_block) out'

-- The three reads of UnmarshalBinary.
unfoldable pub read_current : List ℕ → CurrentBalance
read_current bytes = record {
  version = be_value (take 8 bytes);
  balance = be_value (take 32 (drop 8 bytes));
  start_block = be_value (take 8 (drop 40 bytes));
}

-- `none` is the error "want 48 bytes".
unfoldable pub unmarshal_current : List ℕ → Option CurrentBalance
unfolding read_current
unmarshal_current bytes = if length bytes == 48 then some (read_current bytes) else none

unfoldable pub marshal_historical : HistoricalBalance → List ℕ
unfolding marshal_current
marshal_historical hb =
    let out = blit 0 (marshal_current hb.current) (replicate 56 0) in
    blit 48 (be_bytes 8 hb.end_block) out

-- The inner call gets 48 bytes, so its error, which the code drops, does not occur.
unfoldable pub unmarshal_historical : List ℕ → Option HistoricalBalance
unfolding read_current
unmarshal_historical bytes =
    if length bytes == 56
    then some (record {
      current = read_current (take 48 bytes);
      end_block = be_value (take 8 (drop 48 bytes));
    })
    else none

unfoldable pub to_historical_balance : CurrentBalance → ℕ → HistoricalBalance
to_historical_balance cb end_block = record { current = cb; end_block = end_block }
