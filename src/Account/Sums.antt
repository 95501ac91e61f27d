-- ===== src/Account/Sums.antt =====
-- The commitment to a tree as a sum over its nodes, and how an update of the tree changes the sum.
use smaran.Prelude.{ℕ, zero, suc, ◌≤◌, ◌<◌, ◌≡◌, refl, sym, ap, ◌∙◌, arith}
use smaran.Prelude.{List, [], ◌∷◌, ◌++◌, map, All, length, ltb, ◌==◌, ==_iff, Bool-cases, inl, inr}
use smaran.Account.{BatchTree, Walk, update_at, add_each, add_increments}
use smaran.Account.Curve.{Crypto, CurveLaws, pos}

-- An entry of updatedIndices and updatedYs that agrees with the tree.
unfoldable pub Agrees : BatchTree → ℕ × ℕ → Type 0
Agrees t u = t u.0 ≡ u.1

module _ (c : Crypto) where
  unfoldable pub term : ℕ → ℕ → c.Point
  term i v = c.scalar_mul (c.weight_commits i) (pos v)

  -- The commitment to the first `n` nodes, from scratch.
  unfoldable pub total : ℕ → BatchTree → c.Point
  unfolding term
  total zero t = c.infinity
  total (suc n) t = c.add (total n t) (term n (t n))

  unfoldable pub sum : List (ℕ × ℕ) → c.Point
  unfolding term
  sum [] = c.infinity
  sum ((i, v) ∷ us) = c.add (term i v) (sum us)

module _ (c : Crypto) (laws : CurveLaws c) where
  pub add_both : {p q r s : c.Point} → p ≡ q → r ≡ s → c.add p r ≡ c.add q s
  add_both e f = cc

  pub sum-append :
      (us : List (ℕ × ℕ)) (i v : ℕ) → sum c (us ++ (i, v) ∷ []) ≡ c.add (sum c us) (term c i v)
  unfolding sum
  sum-append [] i v = laws.add_comm (term c i v) c.infinity
  sum-append ((j, w) ∷ us) i v =
      ap (c.add (term c j w)) (sum-append us i v)
      ∙ sym (laws.add_assoc (term c j w) (sum c us) (term c i v))

  pub sum_one : (i v : ℕ) → sum c ((i, v) ∷ []) ≡ term c i v
  unfolding sum
  sum_one i v = laws.add_infinity (term c i v)

  add_each-sum : (us : List (ℕ × ℕ)) (p : c.Point) → add_each c p us ≡ c.add p (sum c us)
  unfolding add_each sum term
  add_each-sum [] p = sym (laws.add_infinity p)
  add_each-sum ((i, v) ∷ us) p =
      add_each-sum us (c.add p (term c i v)) ∙ laws.add_assoc p (term c i v) (sum c us)

  multi_exp-sum :
      (us : List (ℕ × ℕ)) (t : BatchTree)
      → All (Agrees t) us
      → c.multi_exp
          (map (λ u. c.weight_commits u.0) us)
          (map (λ u. c.hash_to_field_element (t u.0)) us)
        ≡ sum c us
  unfolding sum term Agrees
  multi_exp-sum [] t a = laws.multi_exp_nil
  multi_exp-sum ((i, v) ∷ us) t (same, a) =
      laws.multi_exp_cons (c.weight_commits i) _ (c.hash_to_field_element (t i)) _
      ∙ rw (laws.scalar_mul_field (c.weight_commits i) (t i), same, multi_exp-sum us t a) refl

  -- Both ways to add the increments give the same commitment.
  pub add_increments-sum :
      (p : c.Point) (w : Walk)
      → All (Agrees w.tree) w.updated
      → add_increments c p w ≡ c.add p (sum c w.updated)
  unfolding add_increments
  add_increments-sum p w a = elim (Bool-cases (ltb 7 (length w.updated))) [
    | inl many ↦ rw many (ap (c.add p) (multi_exp-sum w.updated w.tree a))
    | inr few ↦ rw few (add_each-sum w.updated p)
  ]

  pub total-outside :
      (n i v : ℕ) (t : BatchTree) → n ≤ i → total c n (update_at i v t) ≡ total c n t
  unfolding total
  total-outside zero i v t h = refl
  total-outside (suc n) i v t h =
      let below = total-outside n i v t (omega arith) in
      let same : update_at i v t n ≡ t n = ground arith in add_both below (ap (term c n) same)

  total-suc_empty : (n : ℕ) (t : BatchTree) → t n ≡ 0 → total c (suc n) t ≡ total c n t
  unfolding total term
  total-suc_empty n t z =
      ap (λ v. c.add (total c n t) (term c n v)) z
      ∙ ap (c.add (total c n t)) (laws.scalar_mul_zero (c.weight_commits n))
      ∙ laws.add_infinity (total c n t)

  -- A node that was empty adds its term.
  pub total-update :
      (n i v : ℕ) (t : BatchTree)
      → i < n
      → t i ≡ 0
      → total c n (update_at i v t) ≡ c.add (total c n t) (term c i v)
  unfolding total
  total-update zero i v t h z = absurd (omega arith)
  total-update (suc n) i v t h z = elim (Bool-cases (n == i)) [
    | inl e ↦
        let same : n ≡ i = (==_iff n i).0 e in
        let written : update_at i v t n ≡ v = ground arith in
        let empty : t n ≡ 0 = ground arith in
        add_both (total-outside n i v t (omega arith) ∙ sym (total-suc_empty n t empty))
          (ap (term c n) written ∙ ap (λ j. term c j v) same)
    | inr e ↦
        let kept : update_at i v t n ≡ t n = ground arith in
        add_both (total-update n i v t (ground arith) z) (ap (term c n) kept)
        ∙ laws.add_assoc (total c n t) (term c i v) (term c n (t n))
        ∙ ap (c.add (total c n t)) (laws.add_comm (term c i v) (term c n (t n)))
        ∙ sym (laws.add_assoc (total c n t) (term c n (t n)) (term c i v))
  ]

  pub total-empty : (n : ℕ) → total c n (λ i. 0) ≡ c.infinity
  unfolding total
  total-empty zero = refl
  total-empty (suc n) = total-suc_empty n (λ i. 0) refl ∙ total-empty n
