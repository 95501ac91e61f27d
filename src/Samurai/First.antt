-- ===== src/Samurai/First.antt =====
-- Get for a user with a single key.
use smaran.Prelude.{ℕ, ◌≡◌, refl, some, none, List, [], ◌∷◌}
use smaran.Account.{AccountInfo}
use smaran.Query.Geometry.{batch_size, leaf_size}
use smaran.Query.Nodes.{find_covering_nodes}
use smaran.Query.Ranges.{commitment, find_range_covering_commitments}
use smaran.Query.Dependencies.{find_commitments_covering_range}
use smaran.Query.Interpolate.{find_nodes_to_interpolate}
use mathlib.Core.Option
use smaran.Optiks.Key.{make_samurai_trie_key}
use smaran.Samurai.{Services, SamuraiKtServer}
use smaran.Optiks.Query.{panic}
use smaran.Samurai.Proofs.{range_proof, range_proofs, get_tree_maps, note_trees, in_versions}
use smaran.Samurai.Proofs.{
  account_proofs, get_proof_range_in_memory, with_proofs, user_result, get_result,
}

first_range : find_commitments_covering_range 1 0 0 ≡ some (commitment 0 1 0 0 ∷ [])
unfolding find_commitments_covering_range find_range_covering_commitments batch_size
first_range = refl

module _ (sv : Services) where
  no_proofs :
      (ai : AccountInfo sv.crypto)
      → ai.historical_balances ≡ []
      → account_proofs sv 1 0 0 (some ai) ≡ none
  unfolding account_proofs get_tree_maps note_trees in_versions range_proofs range_proof Option.bind
      find_nodes_to_interpolate find_covering_nodes leaf_size batch_size
  no_proofs ai none_yet = rw (first_range, none_yet) refl

  no_range :
      (s : SamuraiKtServer sv) (account : List ℕ) (ai : AccountInfo sv.crypto)
      → s.samurai_accounts account ≡ some ai
      → ai.historical_balances ≡ []
      → get_proof_range_in_memory sv 1 s account 0 0 ≡ none
  unfolding get_proof_range_in_memory
  no_range s account ai held none_yet = rw held (no_proofs ai none_yet)

  -- A server panics when it builds the answer for a user with one key, if the trie yields a proof.
  pub get_result-first :
      (s : SamuraiKtServer sv) (user : List ℕ) (ai : AccountInfo sv.crypto)
      (mpt_proof : List (List ℕ))
      → s.current_version user ≡ some 1
      → sv.lib.prove s.mpt (make_samurai_trie_key user) ≡ some mpt_proof
      → s.samurai_accounts (sv.bytes_to_address user) ≡ some ai
      → ai.historical_balances ≡ []
      → get_result sv s user ≡ panic
  unfolding get_result user_result with_proofs
  get_result-first s user ai mpt_proof one proved held none_yet =
      rw (one, proved, held, no_range s (sv.bytes_to_address user) ai held none_yet) refl
