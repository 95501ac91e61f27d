-- ===== src/Account/Bulk.antt =====
-- internal/tree/types.go: the loop of UpdateBulk, which archives the balances of several updates.
use smaran.Prelude.{ℕ, ◌+◌, ◌-◌, ◌%◌, ◌^◌, ◌≡◌, refl, arith, List, [], ◌∷◌, All, length}
use smaran.Prelude.{ltb, ◌&&◌, ◌==◌, if◌then◌else◌, Bool-cases, inl, inr}
use smaran.Query.Geometry.{l1_batch_size}
use smaran.Balance.{CurrentBalance, HistoricalBalance, to_historical_balance}

pub record AccountBulkUpdateEntry : Type 0 where
  pub balance : ℕ
  pub block_number : ℕ

-- After the loop: allHbs, CurrentBalanceInfo, and the entries that the deferred call gets.
pub record BulkPass : Type 0 where
  pub all_hbs : List HistoricalBalance
  pub current_balance_info : CurrentBalance
  pub rest : List AccountBulkUpdateEntry

abbrev pub archive : HistoricalBalance → BulkPass → BulkPass
archive hb pass = record pass { all_hbs = hb ∷ pass.all_hbs }

-- The loop over the entries: `prev` is prevCb, `cb` the current balance so far, and its version currVersion.
unfoldable pub bulk_loop : CurrentBalance → CurrentBalance → List AccountBulkUpdateEntry → BulkPass
unfolding to_historical_balance
bulk_loop prev cb [] = record { all_hbs = []; current_balance_info = cb; rest = [] }
bulk_loop prev cb (entry ∷ entries) =
    let hb = to_historical_balance prev ((entry.block_number + (2 ^ 64 - 1)) % 2 ^ 64) in
    let cb' : CurrentBalance = record {
      version = (cb.version + 1) % 2 ^ 64;
      balance = entry.balance;
      start_block = entry.block_number;
    } in
    let rest = bulk_loop prev cb' entries in
    archive hb (
      if ltb 0 cb'.version && (cb'.version % l1_batch_size == 0)
      then record { all_hbs = []; current_balance_info = cb'; rest = entries }
      else rest)

-- The archiving part of UpdateBulk, on an account with a current balance; the leaves, the writes to the
-- database and the deferred call on `rest` are not in it.
unfoldable pub update_bulk : CurrentBalance → List AccountBulkUpdateEntry → BulkPass
unfolding bulk_loop
update_bulk prev entries = bulk_loop prev prev entries

bulk_loop-same :
    (prev cb : CurrentBalance) (entries : List AccountBulkUpdateEntry)
    → All (λ hb. hb.current ≡ prev) (bulk_loop prev cb entries).all_hbs
      × (length (bulk_loop prev cb entries).all_hbs + length (bulk_loop prev cb entries).rest
          ≡ length entries)
unfolding bulk_loop to_historical_balance
bulk_loop-same prev cb [] = (tt, omega arith)
bulk_loop-same prev cb (entry ∷ entries) =
    let next : CurrentBalance = record {
      version = (cb.version + 1) % 2 ^ 64;
      balance = entry.balance;
      start_block = entry.block_number;
    } in
    let (same, count) = bulk_loop-same prev next entries in
    elim (Bool-cases (ltb 0 next.version && (next.version % 2048 == 0))) [
      | inl full ↦ rw full ((refl, tt), omega arith)
      | inr room ↦ rw room ((refl, same), omega arith)
    ]

-- UpdateBulk archives the balance before the call once for every entry that it handles, with the version
-- of that balance each time: the balances of the entries are not archived, except in the deferred call.
pub update_bulk-same :
    (prev : CurrentBalance) (entries : List AccountBulkUpdateEntry)
    → All (λ hb. hb.current ≡ prev) (update_bulk prev entries).all_hbs
      × (length (update_bulk prev entries).all_hbs + length (update_bulk prev entries).rest
          ≡ length entries)
unfolding update_bulk
update_bulk-same prev entries = bulk_loop-same prev prev entries
