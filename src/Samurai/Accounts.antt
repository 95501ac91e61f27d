-- ===== src/Samurai/Accounts.antt =====
-- The accounts of the server while it applies its buffer.
use smaran.Prelude.{ℕ, ◌+◌, ◌%◌, ◌^◌, ◌≤◌, ◌≡◌}
use smaran.Prelude.{List, length, Option, some}
use smaran.Prelude.{false}
use mathlib.Core.Option
use smaran.Account.{AccountInfo}
use smaran.Account.Updates.{IsAccount}
use smaran.Samurai.{Services, SamuraiKtServer}
use smaran.Samurai.Apply.{note_pairs}

module _ (sv : Services) where
  -- An account as UpdateInMemory keeps it, with at most `n` historical balances.
  abbrev pub Sound : ℕ → AccountInfo sv.crypto → Type 0
  Sound n ai = IsAccount sv.crypto ai × (length ai.historical_balances ≤ n)

  unfoldable pub HasAccounts : ℕ → SamuraiKtServer sv → Type 0
  HasAccounts n s =
      (account : List ℕ) (ai : AccountInfo sv.crypto)
      → s.samurai_accounts account ≡ some ai
      → Sound n ai

  -- The server before the workers start.
  abbrev pub noted : SamuraiKtServer sv → SamuraiKtServer sv
  noted s =
      note_pairs sv s.update_buffer
        (record s { root_commitment_is_dirty = false; epoch = (s.epoch + 1) % 2 ^ 64 })
