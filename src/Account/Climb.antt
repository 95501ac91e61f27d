-- ===== src/Account/Climb.antt =====
-- The loop of UpdateLXTree: it writes the nodes that become known, and each of them was empty.
use smaran.Prelude.{ℕ, zero, suc, ◌+◌, ◌*◌, ◌/◌, ◌≤◌, ◌<◌, ◌≡◌, ◌≢◌, refl, sym, ap, ◌∙◌, arith}
use smaran.Prelude.{
  Bool, true, false, ◌||◌, List, [], ◌∷◌, ◌++◌, All, ◌==◌, ==_iff, if◌then◌else◌, Bool-cases, inl,
  inr,
}
use smaran.Node.{parent_of, parent_of_lt}
use smaran.Account.{BatchTree, Walk, update_at, chunk_size, climb, walk_loop, walk}
use smaran.Account.Curve.{Crypto, CurveLaws}
use smaran.Account.Sums.{Agrees, term, total, sum, sum_one, sum-append, total-update}

module _ (c : Crypto) where
  -- The value that the children of a node give it: none without both of them, else their hash.
  unfoldable pub node_value : BatchTree → ℕ → ℕ
  node_value t n =
      if t (2 * n + 1) == 0 || t (2 * n + 2) == 0
      then 0
      else c.hash_pair (t (2 * n + 1)) (t (2 * n + 2))

  -- Every inner node of a tree of 2048 leaves has the value that its children give it.
  unfoldable pub IsMerkle : BatchTree → Type 0
  IsMerkle t = (n : ℕ) → n < 2047 → t n ≡ node_value t n

  -- Before the round for `idx`: only the parent of `idx` may lack its value, and it is empty.
  pub record Rising (start : BatchTree) (base : c.Point) (idx : ℕ) (w : Walk) : Type 0 where
    pub small : idx < 4095
    pub merkle :
        (n : ℕ) → n < 2047 → ((0 < idx) → n ≢ parent_of idx) → w.tree n ≡ node_value w.tree n
    pub empty : 0 < idx → w.tree (parent_of idx) ≡ 0
    pub sums : total c 4096 w.tree ≡ c.add base (sum c w.updated)
    pub entries : All (λ u. Agrees w.tree u × (idx ≤ u.0)) w.updated
    pub leaves : (j : ℕ) → 2047 ≤ j → w.tree j ≡ start j

  -- After the loop.
  pub record Risen (start : BatchTree) (base : c.Point) (w : Walk) : Type 0 where
    pub merkle : IsMerkle w.tree
    pub sums : total c 4096 w.tree ≡ c.add base (sum c w.updated)
    pub entries : All (Agrees w.tree) w.updated
    pub leaves : (j : ℕ) → 2047 ≤ j → w.tree j ≡ start j

entries-update :
    (us : List (ℕ × ℕ)) (t : BatchTree) (idx p h : ℕ)
    → p < idx
    → All (λ u. Agrees t u × (idx ≤ u.0)) us
    → All (λ u. Agrees (update_at p h t) u × (p ≤ u.0)) (us ++ (p, h) ∷ [])
unfolding Agrees
entries-update [] t idx p h l a = ((ground arith, omega arith), tt)
entries-update (u ∷ us) t idx p h l ((e, g), a) =
    ((ground arith, omega arith), entries-update us t idx p h l a)

pub entries-agree :
    (us : List (ℕ × ℕ)) (t : BatchTree) (idx : ℕ)
    → All (λ u. Agrees t u × (idx ≤ u.0)) us
    → All (Agrees t) us
entries-agree [] t idx a = a
entries-agree (u ∷ us) t idx ((e, g), a) = (e, entries-agree us t idx a)

module _ (c : Crypto) where
  value-update :
      (t : BatchTree) (p h n : ℕ)
      → 2 * n + 1 ≢ p
      → 2 * n + 2 ≢ p
      → node_value c (update_at p h t) n ≡ node_value c t n
  unfolding node_value
  value-update t p h n left right =
      let l : update_at p h t (2 * n + 1) ≡ t (2 * n + 1) = ground arith in
      let r : update_at p h t (2 * n + 2) ≡ t (2 * n + 2) = ground arith in rw (l, r) refl

  value_full :
      (t : BatchTree) (n : ℕ)
      → (t (2 * n + 1) == 0 || t (2 * n + 2) == 0) ≡ false
      → node_value c t n ≡ c.hash_pair (t (2 * n + 1)) (t (2 * n + 2))
  unfolding node_value
  value_full t n full = rw full refl

  value_open :
      (t : BatchTree) (n : ℕ)
      → (t (2 * n + 1) == 0 || t (2 * n + 2) == 0) ≡ true
      → node_value c t n ≡ 0
  unfolding node_value
  value_open t n missing = rw missing refl

  value_under : (t : BatchTree) (p : ℕ) → 0 < p → t p ≡ 0 → node_value c t (parent_of p) ≡ 0
  value_under t p pos z =
      let (lower, halved) = parent_of_lt p pos in
      value_open t (parent_of p) (elim (Bool-cases (p == 2 * parent_of p + 1)) [
        | inl e ↦
            let same : p ≡ 2 * parent_of p + 1 = ground arith in
            let zero : t (2 * parent_of p + 1) ≡ 0 = rw (← same) z in ground arith
        | inr e ↦
            let same : p ≡ 2 * parent_of p + 2 = ground arith in
            let zero : t (2 * parent_of p + 2) ≡ 0 = rw (← same) z in ground arith
      ])

left_apart : (n p : ℕ) → (0 < p → n ≢ parent_of p) → 2 * n + 1 ≢ p
left_apart n p other e =
    let (lower, halved) = parent_of_lt p (omega arith) in other (omega arith) (omega arith)

right_apart : (n p : ℕ) → (0 < p → n ≢ parent_of p) → 2 * n + 2 ≢ p
right_apart n p other e =
    let (lower, halved) = parent_of_lt p (omega arith) in other (omega arith) (omega arith)

module _ (c : Crypto) (laws : CurveLaws c) (start : BatchTree) (base : c.Point) where
  climb-Rising :
      (idx : ℕ) (w : Walk)
      → 0 < idx
      → Rising c start base idx w
      → (w.tree (2 * parent_of idx + 1) == 0 || w.tree (2 * parent_of idx + 2) == 0) ≡ false
      → Rising c start base (parent_of idx) (climb c (parent_of idx) w)
  climb-Rising idx w pos r full =
      let (lower, halved) = parent_of_lt idx pos in
      let small = r.small in
      let p = parent_of idx in
      let h = c.hash_pair (w.tree (2 * p + 1)) (w.tree (2 * p + 2)) in
      record {
        small = omega arith;
        merkle = λ n inner other. elim (Bool-cases (n == p)) [
          | inl e ↦
              let same : n ≡ p = (==_iff n p).0 e in
              let written : update_at p h w.tree n ≡ h = ground arith in
              written
              ∙ sym (value_full c w.tree p full)
              ∙ sym (value-update c w.tree p h p (omega arith) (omega arith))
              ∙ ap (node_value c (update_at p h w.tree)) (sym same)
          | inr e ↦
              let apart : n ≢ p = ground arith in
              let kept : update_at p h w.tree n ≡ w.tree n = ground arith in
              let not_above : 0 < p → n ≢ parent_of p = other in
              kept
              ∙ r.merkle n inner (λ z. apart)
              ∙ sym (
                  value-update c w.tree p h n (left_apart n p not_above)
                    (right_apart n p not_above))
        ];
        empty = λ up.
            let (lower', halved') = parent_of_lt p up in
            let kept : update_at p h w.tree (parent_of p) ≡ w.tree (parent_of p) = ground arith in
            kept
            ∙ r.merkle (parent_of p) (omega arith) (λ z. omega arith)
            ∙ value_under c w.tree p up (r.empty pos);
        sums =
            total-update c laws 4096 (parent_of idx) h w.tree (omega arith) (r.empty pos)
            ∙ ap (λ p. c.add p (term c (parent_of idx) h)) r.sums
            ∙ laws.add_assoc base (sum c w.updated) (term c (parent_of idx) h)
            ∙ ap (c.add base) (sym (sum-append c laws w.updated (parent_of idx) h));
        entries = entries-update w.updated w.tree idx (parent_of idx) h lower r.entries;
        leaves = λ j leaf. let kept = r.leaves j leaf in ground arith;
      }

  at_root : (w : Walk) → Rising c start base 0 w → Risen c start base w
  unfolding IsMerkle
  at_root w r = record {
    merkle = λ n inner. r.merkle n inner (λ z. absurd (omega arith));
    sums = r.sums;
    entries = entries-agree w.updated w.tree 0 r.entries;
    leaves = r.leaves;
  }

  below_gap :
      (idx : ℕ) (w : Walk)
      → 0 < idx
      → Rising c start base idx w
      → (w.tree (2 * parent_of idx + 1) == 0 || w.tree (2 * parent_of idx + 2) == 0) ≡ true
      → Risen c start base w
  unfolding IsMerkle
  below_gap idx w pos r missing = record {
    merkle = λ n inner. elim (Bool-cases (n == parent_of idx)) [
      | inl e ↦
          let same : n ≡ parent_of idx = (==_iff n (parent_of idx)).0 e in
          ap w.tree same
          ∙ r.empty pos
          ∙ sym (value_open c w.tree (parent_of idx) missing)
          ∙ ap (node_value c w.tree) (sym same)
      | inr e ↦ r.merkle n inner (λ z. ground arith)
    ];
    sums = r.sums;
    entries = entries-agree w.updated w.tree idx r.entries;
    leaves = r.leaves;
  }

  walk_loop-Risen :
      (fuel idx : ℕ) (w : Walk)
      → idx ≤ fuel
      → Rising c start base idx w
      → Risen c start base (walk_loop c fuel idx w)
  unfolding walk_loop
  walk_loop-Risen zero zero w f r = at_root w r
  walk_loop-Risen zero (suc idx) w f r = absurd (omega arith)
  walk_loop-Risen (suc fuel) zero w f r = at_root w r
  walk_loop-Risen (suc fuel) (suc idx) w f r =
      let p = parent_of (suc idx) in
      let inner : (suc idx == 0) ≡ false = ground arith in
      elim (Bool-cases (w.tree (2 * p + 1) == 0 || w.tree (2 * p + 2) == 0)) [
        | inl missing ↦ rw (inner, missing) (below_gap (suc idx) w (omega arith) r missing)
        | inr full ↦
            let (lower, halved) = parent_of_lt (suc idx) (omega arith) in
            rw (inner, full)
              (walk_loop-Risen fuel p (climb c p w) (omega arith)
                (climb-Rising (suc idx) w (omega arith) r full))
      ]

-- Under the laws of the curve, for a tree in which every inner node is the hash of its children or empty:
-- written into an empty leaf from 2047 to 4094, the loop leaves such a tree. No node from 2047 on but the
-- leaf changes, and the commitment to the new tree is that to the old one plus the terms of the listed nodes.
pub walk-Risen :
    (c : Crypto) (laws : CurveLaws c) (idx val : ℕ) (t : BatchTree) (dirty : ℕ → Bool)
    → 2047 ≤ idx
    → idx < 4095
    → IsMerkle c t
    → t idx ≡ 0
    → Risen c (update_at idx val t) (total c 4096 t) (walk c idx val t dirty)
unfolding walk IsMerkle
walk-Risen c laws idx val t dirty leaf small merkle fresh =
    let (lower, halved) = parent_of_lt idx (omega arith) in
    walk_loop-Risen c laws (update_at idx val t) (total c 4096 t) idx idx
      (record {
        tree = update_at idx val t;
        dirty = update_at (idx / chunk_size) true dirty;
        updated = (idx, val) ∷ [];
      })
      (omega arith)
      (record {
        small = small;
        merkle = λ n inner other.
            let kept : update_at idx val t n ≡ t n = ground arith in
            kept
            ∙ merkle n inner
            ∙ sym (value-update c t idx val n (left_apart n idx other) (right_apart n idx other));
        empty = λ up.
            let kept : update_at idx val t (parent_of idx) ≡ t (parent_of idx) = ground arith in
            kept ∙ merkle (parent_of idx) (omega arith) ∙ value_under c t idx up fresh;
        sums =
            total-update c laws 4096 idx val t (omega arith) fresh
            ∙ ap (c.add (total c 4096 t)) (sym (sum_one c laws idx val));
        entries = ((unfold Agrees in ground arith, omega arith), tt);
        leaves = λ j far. refl;
      })
