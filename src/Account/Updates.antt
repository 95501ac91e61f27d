-- ===== src/Account/Updates.antt =====
-- UpdateInMemory: an account from its creation on.
use smaran.Prelude.{ℕ, ◌+◌, ◌-◌, ◌%◌, ◌^◌, ◌≡◌, refl, arith}
use smaran.Prelude.{List, [], ◌∷◌, ◌++◌, length, Option, some, none}
use smaran.Balance.{CurrentBalance, HistoricalBalance}
use smaran.Account.{AccountInfo, new_account_info}
use smaran.Account.Curve.{Crypto}
use smaran.Account.Committed.{IsGrown}

-- The number of versions before the current one.
abbrev pub version_of : Option CurrentBalance → ℕ
version_of none = 0
version_of (some cb) = cb.version

module _ (c : Crypto) where
  -- The version of the current balance is the number of historical ones, and for that many leaves the tree
  -- is the Merkle tree of its leaves with its commitment.
  pub record IsAccount (a : AccountInfo c) : Type 0 where
    pub version : version_of a.current_balance_info ≡ length a.historical_balances
    pub first : a.current_balance_info ≡ none → a.historical_balances ≡ []
    pub grown : IsGrown c (length a.historical_balances) a

  pub new_account_info-IsAccount : (account : List ℕ) → IsAccount (new_account_info c account)
  unfolding new_account_info
  new_account_info-IsAccount account = record {
    version = refl;
    first = λ h. refl;
    grown = record { committed = λ h. absurd (omega arith); counted = λ h. absurd (omega arith) };
  }

  -- What an update at a block appends to the historical balances.
  abbrev pub archived : ℕ → Option CurrentBalance → List HistoricalBalance
  archived block_number none = []
  archived block_number (some cb) =
      record { current = cb; end_block = (block_number + (2 ^ 64 - 1)) % 2 ^ 64 } ∷ []

  abbrev started : ℕ → ℕ → AccountInfo c → AccountInfo c
  started block_number balance a = record a {
    current_balance_info =
        some (record { version = 0; balance = balance; start_block = block_number });
  }

  abbrev ended : ℕ → CurrentBalance → HistoricalBalance
  ended block_number prev = record {
    current = prev;
    end_block = (block_number + (2 ^ 64 - 1)) % 2 ^ 64;
  }

  abbrev continued : ℕ → ℕ → CurrentBalance → AccountInfo c → AccountInfo c
  continued block_number balance prev a = record a {
    current_balance_info = some (record {
      version = (prev.version + 1) % 2 ^ 64;
      balance = balance;
      start_block = block_number;
    });
    historical_balances = a.historical_balances ++ ended block_number prev ∷ [];
  }
