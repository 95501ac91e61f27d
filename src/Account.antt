-- ===== src/Account.antt =====
-- internal/kt/tree/types.go: AccountInfo, the segment trees of an account with their commitments.
-- The number of layers is an argument, 1 in the code.
pub mod Curve
pub mod Sums
pub mod Climb
pub mod Committed
pub mod Updates
pub mod Stored
pub mod Bulk
pub mod Leaves
mod Runs
pub mod Sample
use smaran.Prelude.{ℕ, zero, suc, ◌+◌, ◌-◌, ◌*◌, ◌/◌, ◌%◌, ◌^◌, Bool, true, false, ◌&&◌, ◌||◌, map}
use smaran.Prelude.{Option, some, none, List, [], ◌∷◌, ◌++◌, length, ltb, ◌==◌, if◌then◌else◌}
use smaran.Node.{parent_of}
use smaran.Query.Geometry.{l1_batch_size, l2_batch_size, batch_size, pow}
use smaran.Balance.{CurrentBalance, HistoricalBalance, to_historical_balance, marshal_historical}
use mathlib.Core.Option
use Curve.{Crypto, ℤ, pos, sub}

abbrev pub chunk_size : ℕ
chunk_size = 64

-- An array or map after one assignment.
abbrev pub update_at {ℓ} : {A : Type ℓ} → ℕ → A → (ℕ → A) → ℕ → A
update_at i v f j = if j == i then v else f j

-- BatchTree: 4096 hashes, 0 for the zero hash.
abbrev pub BatchTree : Type 0
BatchTree = ℕ → ℕ

-- The variables of the loop of UpdateLXTree; a pair is an entry of updatedIndices with that of updatedYs.
pub record Walk : Type 0 where
  pub tree : BatchTree
  pub dirty : ℕ → Bool
  pub updated : List (ℕ × ℕ)

module _ (c : Crypto) where
  -- Arrays by layer - 1, the leaf nodes by tree index and leaf index.
  pub record AccountInfo : Type 0 where
    pub account : List ℕ
    pub current_balance_info : Option CurrentBalance
    pub current_lx_batch_tree : ℕ → BatchTree
    pub current_lx_batch_commitment : ℕ → c.Point
    pub lx_leaf_nodes : ℕ → ℕ → ℕ → Option ℕ
    pub current_lx_tree_counts : ℕ → ℕ
    pub dirty_chunks : ℕ → ℕ → Bool
    pub historical_balances : List HistoricalBalance

  unfoldable pub new_account_info : List ℕ → AccountInfo
  new_account_info account = record {
    account = account;
    current_balance_info = none;
    current_lx_batch_tree = λ layer i. 0;
    current_lx_batch_commitment = λ layer. c.infinity;
    lx_leaf_nodes = λ layer t i. none;
    current_lx_tree_counts = λ layer. 0;
    dirty_chunks = λ layer i. false;
    historical_balances = [];
  }

  -- One round of the loop, from a node to its parent.
  abbrev pub climb : ℕ → Walk → Walk
  climb parent w =
      let h = c.hash_pair (w.tree (2 * parent + 1)) (w.tree (2 * parent + 2)) in
      record {
        tree = update_at parent h w.tree;
        dirty = update_at (parent / chunk_size) true w.dirty;
        updated = w.updated ++ (parent, h) ∷ [];
      }

  -- `for idx > 0`, on fuel.
  unfoldable pub walk_loop : ℕ → ℕ → Walk → Walk
  walk_loop zero idx w = w
  walk_loop (suc fuel) idx w =
      let parent = parent_of idx in
      let rest = walk_loop fuel parent (climb parent w) in
      if idx == 0
      then w
      else if w.tree (2 * parent + 1) == 0 || w.tree (2 * parent + 2) == 0
      then w
      else rest

  -- The leaf is written, then the nodes above it. Every round goes to a smaller index.
  unfoldable pub walk : ℕ → ℕ → BatchTree → (ℕ → Bool) → Walk
  unfolding walk_loop
  walk idx val tree dirty = walk_loop idx idx (record {
    tree = update_at idx val tree;
    dirty = update_at (idx / chunk_size) true dirty;
    updated = (idx, val) ∷ [];
  })

  unfoldable pub add_each : c.Point → List (ℕ × ℕ) → c.Point
  add_each commit [] = commit
  add_each commit ((i, y) ∷ rest) =
      add_each (c.add commit (c.scalar_mul (c.weight_commits i) (pos y))) rest

  -- The change of the commitment: at once where more than 7 nodes changed, else one by one.
  unfoldable pub add_increments : c.Point → Walk → c.Point
  unfolding add_each
  add_increments commit w =
      if ltb 7 (length w.updated)
      then c.add commit (
          c.multi_exp (map (λ u. c.weight_commits u.0) w.updated)
            (map (λ u. c.hash_to_field_element (w.tree u.0)) w.updated))
      else add_each commit w.updated

  -- The part `if layer > 1`: the commitment hash of the tree below stands beside the leaf.
  unfoldable pub put_commit_hash : ℕ → ℕ → ℕ → AccountInfo → AccountInfo
  put_commit_hash idx lower_commit_hash layer a =
      let slot = l2_batch_size + idx in
      let tree = a.current_lx_batch_tree (layer - 1) in
      let commit = a.current_lx_batch_commitment (layer - 1) in
      let increment = c.scalar_mul (c.weight_commits slot) (sub lower_commit_hash (tree slot)) in
      record a {
        current_lx_batch_tree =
            update_at (layer - 1) (update_at slot lower_commit_hash tree) a.current_lx_batch_tree;
        current_lx_batch_commitment =
            update_at (layer - 1) (c.add commit increment) a.current_lx_batch_commitment;
        dirty_chunks =
            update_at (layer - 1) (update_at (slot / chunk_size) true (a.dirty_chunks (layer - 1)))
              a.dirty_chunks;
      }

  -- The part `if val != Hash{}`, past its panic.
  unfoldable pub put_leaf : ℕ → ℕ → ℕ → AccountInfo → AccountInfo
  unfolding walk add_increments
  put_leaf idx val layer a =
      let w = walk idx val (a.current_lx_batch_tree (layer - 1)) (a.dirty_chunks (layer - 1)) in
      let count = a.current_lx_tree_counts (layer - 1) in
      let stored = a.lx_leaf_nodes (layer - 1) in
      record a {
        current_lx_batch_tree = update_at (layer - 1) w.tree a.current_lx_batch_tree;
        current_lx_batch_commitment =
            update_at (layer - 1) (add_increments (a.current_lx_batch_commitment (layer - 1)) w)
              a.current_lx_batch_commitment;
        lx_leaf_nodes =
            if ltb 1 layer
            then update_at (layer - 1)
                (update_at count (update_at idx (some val) (stored count)) stored) a.lx_leaf_nodes
            else a.lx_leaf_nodes;
        dirty_chunks = update_at (layer - 1) w.dirty a.dirty_chunks;
      }

  -- `none` is the panic "CurrentLXTreeCounts[layer-1] is 0". The new commitment is in the account.
  unfoldable pub update_lx_tree : ℕ → ℕ → ℕ → ℕ → AccountInfo → Option AccountInfo
  unfolding put_commit_hash put_leaf
  update_lx_tree idx val lower_commit_hash layer a =
      let a' = if ltb 1 layer then put_commit_hash idx lower_commit_hash layer a else a in
      if val == 0
      then some a'
      else if a'.current_lx_tree_counts (layer - 1) == 0
      then none
      else some (put_leaf idx val layer a')

  -- lxBatchLeafNodeOffsetIdx
  unfoldable pub leaf_offset : ℕ → ℕ → ℕ
  leaf_offset leaf_node_idx layer =
      if layer == 1
      then l1_batch_size - 1 + leaf_node_idx % l1_batch_size
      else l2_batch_size
        - 1
        + leaf_node_idx / (l1_batch_size * pow l2_batch_size (layer - 2)) % l2_batch_size

  abbrev pub reset_layer : ℕ → AccountInfo → AccountInfo
  reset_layer layer a = record a {
    current_lx_batch_tree = update_at (layer - 1) (λ i. 0) a.current_lx_batch_tree;
    current_lx_batch_commitment = update_at (layer - 1) c.infinity a.current_lx_batch_commitment;
    current_lx_tree_counts =
        update_at (layer - 1) (a.current_lx_tree_counts (layer - 1) + 1) a.current_lx_tree_counts;
  }

  -- "Resetting for new batch", for `rounds` layers from `layer` on.
  unfoldable pub reset_layers : ℕ → ℕ → ℕ → AccountInfo → AccountInfo
  reset_layers zero layer leaf_node_idx a = a
  reset_layers (suc rounds) layer leaf_node_idx a =
      reset_layers rounds (layer + 1) leaf_node_idx
        (if leaf_node_idx % batch_size layer == 0 then reset_layer layer a else a)

  -- The second loop, with the root hash and the commitment hash of the layer below.
  unfoldable pub update_layers : ℕ → ℕ → ℕ → ℕ → ℕ → AccountInfo → Option AccountInfo
  unfolding update_lx_tree leaf_offset
  update_layers zero layer leaf_node_idx root_hash commit_hash a = some a
  update_layers (suc rounds) layer leaf_node_idx root_hash commit_hash a =
      Option.bind (update_lx_tree (leaf_offset leaf_node_idx layer) root_hash commit_hash layer a)
        (λ b.
          update_layers rounds (layer + 1) leaf_node_idx (b.current_lx_batch_tree (layer - 1) 0)
            (c.commitment_to_hash (b.current_lx_batch_commitment (layer - 1))) b)

  unfoldable pub add_leaf_node : ℕ → ℕ → ℕ → AccountInfo → Option AccountInfo
  unfolding reset_layers update_layers
  add_leaf_node max_layer leaf_node_idx leaf_node_hash a =
      update_layers max_layer 1 leaf_node_idx leaf_node_hash 0
        (reset_layers max_layer 1 leaf_node_idx a)

  unfoldable pub historical_hash : HistoricalBalance → ℕ
  unfolding marshal_historical
  historical_hash hb = c.bytes_to_hash (marshal_historical hb)

  -- Versions and block numbers are uint64; block 0 has the predecessor 2 ^ 64 - 1.
  unfoldable pub update_in_memory : ℕ → ℕ → ℕ → AccountInfo → Option AccountInfo
  unfolding add_leaf_node historical_hash to_historical_balance
  update_in_memory max_layer block_number balance a = elim a.current_balance_info [
    | none ↦ some (record a {
      current_balance_info =
          some (record { version = 0; balance = balance; start_block = block_number });
    })
    | some prev ↦
        let hb = to_historical_balance prev ((block_number + (2 ^ 64 - 1)) % 2 ^ 64) in
        add_leaf_node max_layer prev.version (historical_hash hb) (record a {
          current_balance_info = some (record {
            version = (prev.version + 1) % 2 ^ 64;
            balance = balance;
            start_block = block_number;
          });
          historical_balances = a.historical_balances ++ hb ∷ [];
        })
  ]
