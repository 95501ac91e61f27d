-- ===== src/Verkle/Commit/Slots.antt =====
-- The loop of Commit over the slots: the commitment stays the sum of the cached hashes.
use smaran.Prelude.{
  ℕ, zero, suc, ◌+◌, ◌<◌, ◌≡◌, refl, sym, ap, ◌∙◌, arith, Option, some, none, Bool-cases, inl, inr,
}
use smaran.Prelude.{◌==◌, ==_iff, ltb, ltb_of_lt, ltb_of_le, if◌then◌else◌, value_or}
use smaran.Account.{update_at}
use smaran.Account.Curve.{Crypto, CurveLaws, pos}
use smaran.Account.Sums.{total, term, add_both, total-outside}
use smaran.Verkle.Commit.{FieldSub, delta, slot_step, slot_round, slots_loop}

module _ (c : Crypto) (laws : CurveLaws c) where
  -- The sum when one slot changes by an increment.
  total-change :
      (n i v : ℕ) (inc : c.Point) (t : ℕ → ℕ)
      → i < n
      → c.add inc (term c i (t i)) ≡ term c i v
      → c.add (total c n t) inc ≡ total c n (update_at i v t)
  unfolding total
  total-change zero i v inc t h e = absurd (omega arith)
  total-change (suc n) i v inc t h e = elim (Bool-cases (n == i)) [
    | inl same ↦
        let at : n ≡ i = (==_iff n i).0 same in
        let written : update_at i v t n ≡ v = ground arith in
        let here : term c n (t n) ≡ term c i (t i) = ap (λ (x : ℕ). term c x (t x)) at in
        laws.add_assoc (total c n t) (term c n (t n)) inc
        ∙ (ap (c.add (total c n t)) (laws.add_comm (term c n (t n)) inc ∙ (ap (c.add inc) here ∙ e))
            ∙ sym (
                add_both c laws (total-outside c laws n i v t (omega arith))
                  (ap (term c n) written ∙ ap (λ (x : ℕ). term c x v) at)))
    | inr other ↦
        let lt : i < n = ground (arith, ==_iff n i) in
        let kept : update_at i v t n ≡ t n = ground arith in
        laws.add_assoc (total c n t) (term c n (t n)) inc
        ∙ (ap (c.add (total c n t)) (laws.add_comm (term c n (t n)) inc)
            ∙ (sym (laws.add_assoc (total c n t) inc (term c n (t n)))
                ∙ add_both c laws (total-change n i v inc t lt e) (ap (term c n) (sym kept))))
  ]

  module _ (f : FieldSub c) where
    -- The increment of a slot takes its term from the old hash to the new one.
    delta-term :
        (i new_hash old_hash : ℕ)
        → c.add
            (c.scalar_mul (c.weight_commits i) (pos (delta c f new_hash old_hash)))
            (term c i old_hash)
          ≡ term c i new_hash
    unfolding delta term
    delta-term i new_hash old_hash = elim (Bool-cases (old_hash == 0)) [
      | inl none_before ↦
          let at = (==_iff old_hash 0).0 none_before in
          rw
            (
              none_before,
              at,
              laws.scalar_mul_field (c.weight_commits i) new_hash,
              laws.scalar_mul_zero (c.weight_commits i),
            )
            (laws.add_infinity (c.scalar_mul (c.weight_commits i) (pos new_hash)))
      | inr other ↦ rw other (f.scalar_mul-field_sub (c.weight_commits i) new_hash old_hash)
    ]

    -- A state of the loop: the commitment to the cached hashes of the 256 slots.
    abbrev pub IsTotal : c.Point × (ℕ → ℕ) → Type 0
    IsTotal st = st.0 ≡ total c 256 st.1

    slot_round-IsTotal :
        (i : ℕ) (h : Option ℕ) (st : c.Point × (ℕ → ℕ))
        → i < 256
        → IsTotal st
        → IsTotal (slot_round c f i h st)
          × ((j : ℕ)
              → (slot_round c f i h st).1 j ≡ (if j == i then value_or (st.1 i) h else st.1 j))
    unfolding slot_round slot_step
    slot_round-IsTotal i none (p, t) lt e = (
      e,
      λ j. elim (Bool-cases (j == i)) [
        | inl same ↦ rw same (ap t ((==_iff j i).0 same))
        | inr other ↦ rw other refl
      ],
    )
    slot_round-IsTotal i (some h) (p, t) lt e = elim (Bool-cases (h == t i)) [
      | inl unchanged ↦
          let at = (==_iff h (t i)).0 unchanged in
          rw unchanged (
            e,
            λ j. elim (Bool-cases (j == i)) [
              | inl same ↦ rw (same, at) (ap t ((==_iff j i).0 same))
              | inr other ↦ rw other refl
            ],
          )
      | inr changed ↦
          let inc = c.scalar_mul (c.weight_commits i) (pos (delta c f h (t i))) in
          rw changed (
            ap (λ (x : c.Point). c.add x inc) e
                ∙ total-change 256 i h inc t lt (delta-term i h (t i)),
            λ j. refl,
          )
    ]

    -- What the slots from `i` on get, from what slot `i` and those after it get.
    next :
        (i j : ℕ) (t u : ℕ → ℕ) (hashes : ℕ → Option ℕ)
        → t j ≡ (if j == i then value_or (u i) (hashes i) else u j)
        → (if ltb j (i + 1) then t j else value_or (t j) (hashes j))
          ≡ (if ltb j i then u j else value_or (u j) (hashes j))
    next i j t u hashes e = elim (Bool-cases (j == i)) [
      | inl same ↦
          let at = (==_iff j i).0 same in
          let here : t j ≡ value_or (u i) (hashes i) = e ∙ rw same refl in
          rw (ltb_of_lt j (i + 1) (omega arith), ltb_of_le j i (omega arith), here)
            (ap (λ (x : ℕ). value_or (u x) (hashes x)) (sym at))
      | inr other ↦
          let here : t j ≡ u j = e ∙ rw other refl in
          let below : ltb j (i + 1) ≡ ltb j i = ground (arith, ==_iff j i) in rw (here, below) refl
    ]

    -- From a state at slot `i` to the end: what each slot has then.
    pub slots_loop-IsTotal :
        (hashes : ℕ → Option ℕ) (rounds i : ℕ) (st : c.Point × (ℕ → ℕ))
        → rounds + i ≡ 256
        → IsTotal st
        → IsTotal (slots_loop c f hashes rounds i st)
          × ((j : ℕ)
              → j < 256
              → (slots_loop c f hashes rounds i st).1 j
                ≡ (if ltb j i then st.1 j else value_or (st.1 j) (hashes j)))
    unfolding slots_loop
    slots_loop-IsTotal hashes zero i st e h = (h, λ j lt. rw (ltb_of_lt j i (omega arith)) refl)
    slots_loop-IsTotal hashes (suc rounds) i st e h =
        let (h', slots) = slot_round-IsTotal i (hashes i) st (omega arith) h in
        let (final, rest) =
          slots_loop-IsTotal hashes rounds (i + 1) (slot_round c f i (hashes i) st) (omega arith)
            h' in
        (
          final,
          λ j lt. rest j lt ∙ next i j (slot_round c f i (hashes i) st).1 st.1 hashes (slots j),
        )
