-- ===== src/Verkle/Runs.antt =====
-- The trie on small inputs.
use smaran.Prelude.{
  ℕ, ◌≡◌, refl, Bool, true, false, some, none, List, [], ◌∷◌, empty_map, arith, bytes_eq,
}
use smaran.Account.{update_at}
use smaran.Verkle.{VerkleNode, empty, leaf, internal, new_internal_node}
use smaran.Verkle.Trie.{get, ok}
use smaran.Verkle.Trie.Keys.{slot_answer}
use smaran.Verkle.Trie.Refines.{
  trie_run, map_run, map_reports, map_report, map_step, get-trie_run, new_internal_node-StandsFor,
}
use smaran.Verkle.Flush.{SerializedNode}
use smaran.Verkle.Dirty.{serialize_dirty_paths}
use smaran.Verkle.Dirty.Prefixes.{Lacks}
use smaran.Verkle.Dirty.Unwritten.{insert-unwritten, node_at}
use smaran.Verkle.Trie.{insert}
use smaran.Prelude.{bytes_eq, arith}
use smaran.Verkle.{set_value, node_commitment}
use smaran.Verkle.Trie.{get_leaf, split_leaf, stem_of}
use smaran.Verkle.Commit.{commit, commit_leaf}
use smaran.Verkle.Commit.Sealed.{Sealed, commit-Sealed}
use smaran.Verkle.Commit.Missed.{commit_leaf-last_slot, commit-split_leaf}
use smaran.Verkle.Sample.{two_points-CurveLaws, two_points-FieldSub}
use smaran.Verkle.Sample.{two_codec, two_points}
use smaran.Verkle.Inputs.{sample_key, other_key, sample_changes}
use smaran.Verkle.Inputs.{fresh_leaf, fresh_root}
use smaran.Verkle.Inputs.{fresh_root-Cached, last_key, clean_leaf, clean_other, sample_stem-apart}

get-trie_run_example :
    (root' : VerkleNode Bool) × (trie_run two_codec none sample_changes
        (new_internal_node two_points 0)
      ≡ ok (map_reports sample_changes empty_map, root'))
    × (get two_codec none 31 root' other_key
        ≡ slot_answer (map_run sample_changes empty_map other_key))
get-trie_run_example =
    get-trie_run two_codec none sample_changes (new_internal_node two_points 0) empty_map other_key
      (omega arith) (new_internal_node-StandsFor two_codec none) refl

sample_reports :
    map_reports sample_changes empty_map ≡ none ∷ none ∷ none ∷ some true ∷ some false ∷ []
unfolding map_reports map_report map_step bytes_eq
sample_reports = refl

commit-Sealed_example : Sealed two_codec (commit two_codec two_points-FieldSub fresh_root)
commit-Sealed_example =
    commit-Sealed two_codec two_points-CurveLaws two_points-FieldSub fresh_root fresh_root-Cached

commit_leaf-last_slot_example :
    (get_leaf
        (commit_leaf two_codec two_points-FieldSub (set_value 255 (some (7 ∷ [])) fresh_leaf))
        last_key
      ≡ slot_answer (some (7 ∷ [])))
    × (get_leaf (commit_leaf two_codec two_points-FieldSub (set_value 255 none fresh_leaf)) last_key
        ≡ slot_answer none)
    × ((commit_leaf two_codec two_points-FieldSub
          (set_value 255 (some (7 ∷ [])) fresh_leaf)).commitment
        ≡ (commit_leaf two_codec two_points-FieldSub (set_value 255 none fresh_leaf)).commitment)
commit_leaf-last_slot_example =
    commit_leaf-last_slot two_codec two_points-FieldSub fresh_leaf last_key (some (7 ∷ [])) none
      refl refl refl

commit-split_leaf_example :
    (get two_codec none 30 (split_leaf two_codec none clean_leaf other_key (2 ∷ []) 1) sample_key
      ≡ get_leaf clean_leaf sample_key)
    × (get two_codec none 30 (split_leaf two_codec none clean_other other_key (2 ∷ []) 1) sample_key
        ≡ get_leaf clean_other sample_key)
    × (node_commitment two_points (
          commit two_codec two_points-FieldSub
            (split_leaf two_codec none clean_leaf other_key (2 ∷ []) 1))
        ≡ node_commitment two_points (
            commit two_codec two_points-FieldSub
              (split_leaf two_codec none clean_other other_key (2 ∷ []) 1)))
commit-split_leaf_example =
    commit-split_leaf two_codec two_points-FieldSub none clean_leaf clean_other other_key (2 ∷ [])
      sample_key 30 1 (omega arith) refl refl refl refl refl sample_stem-apart
      (unfold bytes_eq in refl) refl refl refl

insert-unwritten_example :
    (root' : VerkleNode Bool) × (path : List ℕ) × (nodes : List SerializedNode) × (commitment : List
      ℕ)
    × (insert two_codec none 31
          (internal (update_at 5 (leaf clean_leaf) (λ i. empty)) true (λ i. 0) 0 false)
          other_key
          (2 ∷ [])
        ≡ ok root')
    × (node_at (commit two_codec two_points-FieldSub root') path ≡ leaf clean_leaf)
    × (serialize_dirty_paths two_codec
          (commit two_codec two_points-FieldSub root')
          (stem_of other_key ∷ [])
        ≡ some (nodes, commitment))
    × Lacks path nodes
insert-unwritten_example =
    insert-unwritten two_codec two_points-FieldSub none (update_at 5 (leaf clean_leaf) (λ i. empty))
      true (λ i. 0) false clean_leaf other_key (2 ∷ []) refl refl refl sample_stem-apart refl refl
