-- ===== src/Optiks/Runs.antt =====
-- Runs of the server on a small trie.
use smaran.Prelude.{not, ◌||◌, ◌&&◌, ltb, leb, length}
use smaran.Optiks.Update.Total.{is_some, all_fit, flush-total}
use smaran.Prelude.{arith, ℕ, ◌≡◌, refl, true, false, some, none, List, [], ◌∷◌, ◌++◌}
use smaran.Prelude.{value_or, bytes_eq, if◌then◌else◌}
use smaran.Optiks.Prefix.{Proof}
use smaran.Optiks.Update.{OptiksServer, new_optiks_server, put, apply_updates, flush}
use smaran.Optiks.Update.History.{full_history, put-history}
use smaran.Optiks.Query.{OptiksQueryResult, Outcome, answer, get_result}
use smaran.Optiks.Key.Distinct.{make_trie_key-distinct}
use smaran.Optiks.Sample.{sample_trie}

abbrev first : Proof
first = (1 ∷ []) ∷ (2 ∷ []) ∷ (3 ∷ []) ∷ []

abbrev second : Proof
second = (1 ∷ []) ∷ (2 ∷ []) ∷ (4 ∷ []) ∷ []

abbrev shared : Proof
shared = (1 ∷ []) ∷ []

abbrev alice : List ℕ
alice = 97 ∷ 108 ∷ []

-- Two keys in one batch, then a third that waits.
abbrev two : OptiksServer sample_trie
two = new_optiks_server sample_trie [] 2

abbrev after_one : OptiksServer sample_trie
after_one = value_or two (put sample_trie two alice (11 ∷ []))

abbrev after_two : OptiksServer sample_trie
after_two = value_or two (put sample_trie after_one alice (12 ∷ []))

after_one_fits :
    (ltb 0 after_one.batch_size
      && leb after_one.batch_size
          (length (after_one.update_buffer ++ record { user = alice; key = 12 ∷ [] } ∷ []))
      && not (all_fit (after_one.update_buffer ++ record { user = alice; key = 12 ∷ [] } ∷ [])))
    ≡ false
unfolding put new_optiks_server all_fit
after_one_fits = refl

put-history_example :
    (t : OptiksServer sample_trie) × (put sample_trie after_one alice (12 ∷ []) ≡ some t)
    × (full_history sample_trie alice t
        ≡ full_history sample_trie alice after_one
          ++ (if bytes_eq alice alice then (12 ∷ []) ∷ [] else []))
put-history_example = put-history sample_trie alice after_one alice (12 ∷ []) after_one_fits

-- The state of the second Put before it applies the buffer.
abbrev waiting : OptiksServer sample_trie
waiting = record after_one {
  update_buffer = after_one.update_buffer ++ record { user = alice; key = 12 ∷ [] } ∷ [];
  root_commitment_is_dirty = true;
}

apply_run : apply_updates sample_trie waiting ≡ some after_two
unfolding put new_optiks_server
apply_run = refl

abbrev flushed : OptiksServer sample_trie
flushed = value_or two (flush sample_trie after_one)

flush_run : flush sample_trie after_one ≡ some flushed
unfolding flush put new_optiks_server
flush_run = refl

abbrev result_or_none : Outcome OptiksQueryResult → OptiksQueryResult
result_or_none (answer r) = r
result_or_none other = record {
  value = none;
  current_version = 0;
  next_version_non_membership_proof = [];
  version_proofs = [];
  current_version_epoch = 0;
  old_versions = [];
  old_version_epochs = [];
  common_proof_prefix = [];
}

abbrev result : OptiksQueryResult
result = result_or_none (get_result sample_trie after_two alice false)

make_trie_key-distinct_example : (alice ≡ alice) × ◌≡◌ {A = ℕ} 2 2
make_trie_key-distinct_example =
    make_trie_key-distinct alice alice 2 2 refl (omega arith) (omega arith) (omega arith) refl

flush-total_example :
    is_some (flush sample_trie after_one)
    ≡ (not after_one.root_commitment_is_dirty || all_fit after_one.update_buffer)
flush-total_example = flush-total sample_trie after_one
