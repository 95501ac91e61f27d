-- ===== src/Account/Committed.antt =====
-- One layer, as the key transparency server has it: the tree of an account, its commitment and its balances.
use smaran.Prelude.{ℕ, suc, ◌+◌, ◌-◌, ◌%◌, ◌≤◌, ◌<◌, ◌≡◌, refl, sym, ap, ◌∙◌, arith}
use smaran.Prelude.{true, false, some, ◌==◌, Bool-cases, inl, inr}
use mathlib.Core.Option
use smaran.Query.Geometry.{batch_size}
use smaran.Account.{AccountInfo, put_leaf, update_lx_tree, update_layers, reset_layers, reset_layer}
use smaran.Account.{add_leaf_node, leaf_offset, walk}
use smaran.Account.Curve.{Crypto, CurveLaws}
use smaran.Account.Sums.{total, sum, add_increments-sum, total-empty}
use smaran.Account.Climb.{IsMerkle, node_value, walk-Risen}

module _ (c : Crypto) where
  -- The tree is the Merkle tree of its leaves, the commitment is the one that a computation from
  -- scratch gives, and the leaves from number `n` on are empty.
  pub record IsCommitted (n : ℕ) (a : AccountInfo c) : Type 0 where
    pub merkle : IsMerkle c (a.current_lx_batch_tree 0)
    pub commits : a.current_lx_batch_commitment 0 ≡ total c 4096 (a.current_lx_batch_tree 0)
    pub free : (j : ℕ) → 2047 + n ≤ j → a.current_lx_batch_tree 0 j ≡ 0

  put_leaf-IsCommitted :
      (laws : CurveLaws c) (i val : ℕ) (a : AccountInfo c)
      → i < 2048
      → IsCommitted i a
      → IsCommitted (suc i) (put_leaf c (2047 + i) val 1 a)
  unfolding put_leaf
  put_leaf-IsCommitted laws i val a small h =
      let r =
        walk-Risen c laws (2047 + i) val (a.current_lx_batch_tree 0) (a.dirty_chunks 0)
          (omega arith) (omega arith) h.merkle (h.free (2047 + i) (omega arith)) in
      record {
        merkle = r.merkle;
        commits =
            add_increments-sum c laws (a.current_lx_batch_commitment 0)
              (walk c (2047 + i) val (a.current_lx_batch_tree 0) (a.dirty_chunks 0)) r.entries
            ∙ ap
                (λ p. c.add p (
                  sum c
                    (walk c (2047 + i) val (a.current_lx_batch_tree 0) (a.dirty_chunks 0)).updated))
                h.commits
            ∙ sym r.sums;
        free = λ j far. r.leaves j (omega arith) ∙ (let e = h.free j (omega arith) in ground arith);
      }

  -- An account with `n` leaves, of which the last tree holds those since the last reset.
  pub record IsGrown (n : ℕ) (a : AccountInfo c) : Type 0 where
    pub committed : 0 < n → IsCommitted ((n - 1) % 2048 + 1) a
    pub counted : 0 < n → 0 < a.current_lx_tree_counts 0

  -- The balances are the same in both.
  abbrev pub SameBalances : AccountInfo c → AccountInfo c → Type 0
  SameBalances a b =
      (b.current_balance_info ≡ a.current_balance_info)
      × (b.historical_balances ≡ a.historical_balances)

  update_lx_tree-IsCommitted :
      (laws : CurveLaws c) (i val : ℕ) (a : AccountInfo c)
      → i < 2048
      → 0 < a.current_lx_tree_counts 0
      → IsCommitted i a
      → (b : AccountInfo c) × (update_lx_tree c (2047 + i) val 0 1 a ≡ some b)
        × IsCommitted (suc i) b
        × (0 < b.current_lx_tree_counts 0)
        × SameBalances a b
  unfolding update_lx_tree
  update_lx_tree-IsCommitted laws i val a small counted h = elim (Bool-cases (val == 0)) [
    | inl z ↦ (
      a,
      rw z refl,
      record { merkle = h.merkle; commits = h.commits; free = λ j far. h.free j (omega arith) },
      counted,
      (refl, refl),
    )
    | inr e ↦
        let some_tree : (a.current_lx_tree_counts 0 == 0) ≡ false = ground arith in
        (
          put_leaf c (2047 + i) val 1 a,
          rw (e, some_tree) refl,
          put_leaf-IsCommitted laws i val a small h,
          unfold put_leaf in counted,
          unfold put_leaf in (refl, refl),
        )
  ]

  empty-IsMerkle : IsMerkle c (λ i. 0)
  unfolding IsMerkle node_value
  empty-IsMerkle n h = refl

  pub resets :
      (v : ℕ) (a : AccountInfo c)
      → (v % 2048 == 0) ≡ true
      → reset_layers c 1 1 v a ≡ reset_layer c 1 a
  unfolding reset_layers batch_size
  resets v a e = rw e refl

  pub stays : (v : ℕ) (a : AccountInfo c) → (v % 2048 == 0) ≡ false → reset_layers c 1 1 v a ≡ a
  unfolding reset_layers batch_size
  stays v a e = rw e refl

  pub reset-IsCommitted :
      (laws : CurveLaws c) (v : ℕ) (a : AccountInfo c)
      → IsGrown v a
      → IsCommitted (v % 2048) (reset_layers c 1 1 v a)
        × (0 < (reset_layers c 1 1 v a).current_lx_tree_counts 0)
        × SameBalances a (reset_layers c 1 1 v a)
  reset-IsCommitted laws v a g = elim (Bool-cases (v % 2048 == 0)) [
    | inl e ↦ rw (resets v a e) (
      record {
        merkle = empty-IsMerkle;
        commits = sym (total-empty c laws 4096);
        free = λ j far. refl;
      },
      omega arith,
      (refl, refl),
    )
    | inr e ↦
        let some_leaves : 0 < v = ground arith in
        let same : (v - 1) % 2048 + 1 ≡ v % 2048 = ground arith in
        rw (stays v a e) (rw same at (g.committed some_leaves), g.counted some_leaves, (refl, refl))
  ]

  one_layer :
      (v val : ℕ) (a b : AccountInfo c)
      → update_lx_tree c (2047 + v % 2048) val 0 1 (reset_layers c 1 1 v a) ≡ some b
      → add_leaf_node c 1 v val a ≡ some b
  unfolding add_leaf_node update_layers leaf_offset Option.bind
  one_layer v val a b run = rw run refl

  -- With a leaf more the account is as it should be again, and there is no panic.
  pub add_leaf_node-IsGrown :
      (laws : CurveLaws c) (v val : ℕ) (a : AccountInfo c)
      → IsGrown v a
      → (b : AccountInfo c) × (add_leaf_node c 1 v val a ≡ some b)
        × IsGrown (suc v) b
        × SameBalances a b
  add_leaf_node-IsGrown laws v val a g =
      let (ready, counted, (kept0, kept1)) = reset-IsCommitted laws v a g in
      let (b, run, done, counted', (kept2, kept3)) =
        update_lx_tree-IsCommitted laws (v % 2048) val (reset_layers c 1 1 v a) (omega arith)
          counted ready in
      let same : suc (v % 2048) ≡ (suc v - 1) % 2048 + 1 = omega arith in
      (
        b,
        one_layer v val a b run,
        record { committed = λ h. rw same at done; counted = λ h. counted' },
        (kept2 ∙ kept0, kept3 ∙ kept1),
      )
