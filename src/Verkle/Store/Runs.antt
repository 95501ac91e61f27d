-- ===== src/Verkle/Store/Runs.antt =====
-- Nodes in a small database.
use smaran.Prelude.{ℕ, ◌^◌, ◌≡◌, ◌<◌, refl, sym, ◌∙◌, arith, Bool, true, Bool-cases, inl, inr}
use smaran.Prelude.{List, [], ◌∷◌, some, none, All, bytes_eq, bytes_eq_iff}
use mathlib.Core.Option
use smaran.Prelude.{true}
use smaran.Verkle.Store.Entries.{Entry}
use smaran.Verkle.Store.{save_block_state}
use smaran.Account.{update_at}
use smaran.Bytes.{be_bytes}
use smaran.Verkle.{VerkleNode, empty, leaf, is_nil, node_commitment}
use smaran.Verkle.Serialize.{serialize, bitmap_from, values_from, children_from, is_some}
use smaran.Verkle.Trie.{get}
use smaran.Verkle.Flush.{SerializedNode, batch_serialize, batch_children}
use smaran.Verkle.Sample.{two_codec}
use smaran.Verkle.Inputs.{sample_key, sample_leaf, sample_root, sample_nodes, sample_root-Whole}
use smaran.Verkle.Store.{
  versioned_node_key, versioned_node_prefix, save_nodes, load_tree, versioned_node_resolver,
}
use smaran.Verkle.Store.Latest.{IsVersioned}
use smaran.Verkle.Store.Load.{IsShort, get-load_tree}
use smaran.Verkle.Store.Entries.{entry_store, fetch_entry}

save_nodes-IsVersioned :
    (nodes : List SerializedNode) (b : ℕ)
    → b < 256 ^ 8
    → All IsShort nodes
    → IsVersioned entry_store (save_nodes nodes b)
unfolding save_nodes
save_nodes-IsVersioned [] b fits short k v e vn = absurd (cc)
save_nodes-IsVersioned ((path, bytes) ∷ nodes) b fits (lt, short) k v e vn =
    elim (Bool-cases (bytes_eq (versioned_node_key path b) k)) [
      | inl same ↦ (path, b, sym ((bytes_eq_iff (versioned_node_key path b) k).0 same), lt, fits)
      | inr other ↦ save_nodes-IsVersioned nodes b fits short k v (sym (rw other refl) ∙ e) vn
    ]

-- The node at path 5, written for block 7.
abbrev one_node : List SerializedNode
one_node = (5 ∷ [], 1 ∷ 2 ∷ []) ∷ []

abbrev one_db : List Entry
one_db = save_block_state one_node 7 (9 ∷ [])

sample_nodes-IsShort : All IsShort sample_nodes
unfolding batch_serialize batch_children serialize Option.bind is_nil node_commitment bitmap_from
    values_from children_from is_some
sample_nodes-IsShort = (omega arith, (omega arith, tt))

sample_nodes-saved :
    All (λ w. fetch_entry (save_nodes sample_nodes 7) w.0 ≡ some w.1) (save_nodes sample_nodes 7)
unfolding batch_serialize batch_children serialize bytes_eq Option.bind is_nil node_commitment
    bitmap_from values_from children_from is_some save_nodes versioned_node_key
    versioned_node_prefix be_bytes
sample_nodes-saved = (refl, (refl, tt))

get-load_tree_example :
    (m : VerkleNode Bool) × (load_tree two_codec entry_store (save_nodes sample_nodes 7) 7 ≡ some m)
    × (get two_codec
          (some (versioned_node_resolver entry_store (save_nodes sample_nodes 7) 7))
          31
          m
          sample_key
        ≡ get two_codec none 31 sample_root sample_key)
get-load_tree_example =
    get-load_tree two_codec entry_store (save_nodes sample_nodes 7) 7 none sample_key
      (update_at 5 (leaf sample_leaf) (λ i. empty)) true (λ i. 0) 0 true refl sample_root-Whole
      (save_nodes-IsVersioned sample_nodes 7 (omega arith) sample_nodes-IsShort) (omega arith)
      sample_nodes-saved
