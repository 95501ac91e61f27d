-- ===== src/Account/Stored.antt =====
-- Update, Save and CalculateFinalCommitment of types.go: an account with its database.
-- A write is the call of a Store function of persistence.go with its arguments, in the order of the code.
use smaran.Prelude.{ℕ, ◌+◌, ◌-◌, ◌%◌, ◌^◌, Bool, ◌&&◌}
use smaran.Prelude.{List, [], ◌∷◌, Option, some, none, ltb, ◌==◌, if◌then◌else◌}
use mathlib.Core.Option
use smaran.Query.Geometry.{l1_batch_size}
use smaran.Balance.{CurrentBalance, HistoricalBalance, to_historical_balance, marshal_current}
use smaran.Account.{AccountInfo, BatchTree, add_leaf_node, historical_hash}
use smaran.Account.Curve.{Crypto}

module _ (c : Crypto) where
  pub data Write : Type 0 where
    historical_balance : HistoricalBalance → Write
    current_balance : Option CurrentBalance → Write
    batch_tree : (ℕ → BatchTree) → (ℕ → ℕ → Bool) → Write
    batch_commitments : ℕ → (ℕ → c.Point) → Write
    leaf_nodes : (ℕ → ℕ → ℕ → Option ℕ) → Write
    tree_counts : (ℕ → ℕ) → Write

  -- The current balance that an update at a block makes of the previous one.
  unfoldable pub next_balance : ℕ → ℕ → CurrentBalance → CurrentBalance
  next_balance block_number balance prev = record {
    version = (prev.version + 1) % 2 ^ 64;
    balance = balance;
    start_block = block_number;
  }

  -- The writes of Update: the archived balance, and the commitments at the end of a tree of layer 1.
  unfoldable pub update_writes : HistoricalBalance → ℕ → AccountInfo c → List Write
  update_writes hb version a =
      historical_balance hb
      ∷ (if ltb 0 version && (version % l1_batch_size == 0)
          then batch_commitments version a.current_lx_batch_commitment ∷ []
          else [])

  unfoldable pub update : ℕ → ℕ → ℕ → AccountInfo c → Option (AccountInfo c × List Write)
  unfolding next_balance update_writes to_historical_balance historical_hash
  update max_layer block_number balance a = elim a.current_balance_info [
    | none ↦ some (
      record a {
        current_balance_info =
            some (record { version = 0; balance = balance; start_block = block_number });
      },
      [],
    )
    | some prev ↦
        let hb = to_historical_balance prev ((block_number + (2 ^ 64 - 1)) % 2 ^ 64) in
        let cb = next_balance block_number balance prev in
        Option.map (λ b. (b, update_writes hb cb.version b))
          (add_leaf_node c max_layer prev.version (historical_hash c hb)
            (record a { current_balance_info = some cb }))
  ]

  -- `none` is the use of a missing current balance.
  unfoldable pub save : AccountInfo c → Option (List Write)
  save a =
      Option.map
        (λ (cb : CurrentBalance).
          current_balance a.current_balance_info
          ∷ batch_tree a.current_lx_batch_tree a.dirty_chunks
          ∷ batch_commitments cb.version a.current_lx_batch_commitment
          ∷ leaf_nodes a.lx_leaf_nodes
          ∷ tree_counts a.current_lx_tree_counts
          ∷ [])
        a.current_balance_info

  unfoldable pub calculate_final_commitment : ℕ → AccountInfo c → Option ℕ
  unfolding marshal_current
  calculate_final_commitment max_layer a =
      Option.map
        (λ cb.
          c.hash_pair (c.bytes_to_hash (marshal_current cb))
            (c.commitment_to_hash (a.current_lx_batch_commitment (max_layer - 1))))
        a.current_balance_info
