-- ===== src/Account/Runs.antt =====
-- Runs of the account updates.
use smaran.Prelude.{◌==◌, if◌then◌else◌}
use smaran.Account.{add_leaf_node}
use smaran.Account.Leaves.{leaf_before, add_leaf_node-leaf}
use smaran.Prelude.{ℕ, List, All}
use smaran.Account.Bulk.{AccountBulkUpdateEntry, update_bulk, update_bulk-same}
use smaran.Prelude.{◌%◌}
use smaran.Balance.{CurrentBalance}
use smaran.Account.Committed.{IsGrown}
use smaran.Prelude.{◌+◌, ◌≡◌, refl, arith, [], ◌∷◌, some, length}
use smaran.Account.{AccountInfo, new_account_info}
use smaran.Account.Climb.{IsMerkle, node_value}
use smaran.Account.Sample.{sample_curve, sample_curve-CurveLaws}

-- An account after its first update.
abbrev opened : AccountInfo sample_curve
opened = record (new_account_info sample_curve (7 ∷ [])) {
  current_balance_info = some (record { version = 0; balance = 50; start_block = 10 });
}

empty-IsMerkle : IsMerkle sample_curve (λ i. 0)
unfolding IsMerkle node_value
empty-IsMerkle n h = refl

abbrev before : CurrentBalance
before = record { version = 0; balance = 50; start_block = 10 }

none_yet : IsGrown sample_curve before.version opened
none_yet = record { committed = λ h. absurd (omega arith); counted = λ h. absurd (omega arith) }

abbrev entries : List AccountBulkUpdateEntry
entries =
    record { balance = 60; block_number = 25 } ∷ record { balance = 70; block_number = 31 } ∷ []

update_bulk-same_example :
    All (λ hb. hb.current ≡ before) (update_bulk before entries).all_hbs
    × ◌≡◌ {A = ℕ}
        (length (update_bulk before entries).all_hbs + length (update_bulk before entries).rest)
        (length entries)
update_bulk-same_example = update_bulk-same before entries

add_leaf_node-leaf_example :
    (b : AccountInfo sample_curve) × (add_leaf_node sample_curve 1 0 77 opened ≡ some b)
    × (b.current_lx_batch_tree 0 2047 ≡ (
        if 2047 == 2047 + 0 % 2048
        then 77
        else leaf_before sample_curve sample_curve-CurveLaws 0 opened 2047))
add_leaf_node-leaf_example =
    add_leaf_node-leaf sample_curve sample_curve-CurveLaws 0 77 2047 opened (omega arith)
      (omega arith) none_yet
