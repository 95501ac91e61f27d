-- ===== src/Rebuild/Runs.antt =====
-- A run of the rebuild on the small group.
use smaran.Prelude.{[]}
use smaran.Account.{AccountInfo, new_account_info}
use smaran.Account.Sample.{sample_curve}

-- An account that has begun its first tree.
abbrev begun : AccountInfo sample_curve
begun = record (new_account_info sample_curve []) { current_lx_tree_counts = λ layer. 1 }
