-- ===== src/Account/Leaves.antt =====
-- The leaves of the layer 1 tree after AddLeafNode.
use smaran.Prelude.{ℕ, ◌+◌, ◌%◌, ◌≤◌, ◌<◌, ◌≡◌, ◌≢◌, refl, ap, ◌∙◌, arith, false, some}
use smaran.Prelude.{◌==◌, if◌then◌else◌, Bool-cases, inl, inr}
use mathlib.Core.Option
use smaran.Account.{AccountInfo, put_leaf, update_lx_tree, update_layers, reset_layers}
use smaran.Account.{add_leaf_node, leaf_offset, update_at}
use smaran.Account.Curve.{Crypto, CurveLaws}
use smaran.Account.Climb.{walk-Risen}
use smaran.Account.Committed.{IsCommitted, IsGrown, reset-IsCommitted, resets, stays}

module _ (c : Crypto) (laws : CurveLaws c) where
  put_leaf-leaf :
      (i val j : ℕ) (a : AccountInfo c)
      → i < 2048
      → 2047 ≤ j
      → IsCommitted c i a
      → (put_leaf c (2047 + i) val 1 a).current_lx_batch_tree 0 j
        ≡ update_at (2047 + i) val (a.current_lx_batch_tree 0) j
  unfolding put_leaf
  put_leaf-leaf i val j a small leaf h =
      let r =
        walk-Risen c laws (2047 + i) val (a.current_lx_batch_tree 0) (a.dirty_chunks 0)
          (omega arith) (omega arith) h.merkle (h.free (2047 + i) (omega arith)) in
      r.leaves j leaf

  one_run :
      (v val : ℕ) (a : AccountInfo c)
      → val ≢ 0
      → 0 < (reset_layers c 1 1 v a).current_lx_tree_counts 0
      → add_leaf_node c 1 v val a
        ≡ some (put_leaf c (2047 + v % 2048) val 1 (reset_layers c 1 1 v a))
  unfolding add_leaf_node update_layers leaf_offset update_lx_tree Option.bind
  one_run v val a some_val counted =
      let e : (val == 0) ≡ false = ground arith in
      let f : ((reset_layers c 1 1 v a).current_lx_tree_counts 0 == 0) ≡ false = ground arith in
      rw (e, f) refl

  -- The leaves before the new one: none in a new tree.
  abbrev pub leaf_before : ℕ → AccountInfo c → ℕ → ℕ
  leaf_before v a j = if v % 2048 == 0 then 0 else a.current_lx_batch_tree 0 j

  reset-leaf :
      (v j : ℕ) (a : AccountInfo c)
      → (reset_layers c 1 1 v a).current_lx_batch_tree 0 j ≡ leaf_before v a j
  reset-leaf v j a = elim (Bool-cases (v % 2048 == 0)) [
    | inl e ↦ rw (resets c v a e, e) refl
    | inr e ↦ rw (stays c v a e, e) refl
  ]

  -- With one layer and under the laws of the curve, AddLeafNode for leaf number `v` on an account with the
  -- `v` leaves before it writes the hash, if it is not the zero hash, to the place of the leaf and leaves
  -- all other leaf places as they were, or empty if the leaf is the first of its tree.
  pub add_leaf_node-leaf :
      (v val j : ℕ) (a : AccountInfo c)
      → val ≢ 0
      → 2047 ≤ j
      → IsGrown c v a
      → (b : AccountInfo c) × (add_leaf_node c 1 v val a ≡ some b)
        × (b.current_lx_batch_tree 0 j ≡ (if j == 2047 + v % 2048 then val else leaf_before v a j))
  add_leaf_node-leaf v val j a some_val leaf g =
      let (ready, counted, same) = reset-IsCommitted c laws v a g in
      let ready_account = reset_layers c 1 1 v a in
      (
        put_leaf c (2047 + v % 2048) val 1 ready_account,
        one_run v val a some_val counted,
        put_leaf-leaf (v % 2048) val j ready_account (omega arith) leaf ready
            ∙ ap (λ x. if j == 2047 + v % 2048 then val else x) (reset-leaf v j a),
      )
