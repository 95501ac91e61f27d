-- ===== src/Optiks/Prefix/Longest.antt =====
-- The common prefix is a prefix of every proof, and no longer list is.
use smaran.Prelude.{ℕ, zero, suc, ◌+◌, ◌≤◌, ◌<◌, ◌≡◌, refl, ap, ◌∙◌, sym, arith, true, false}
use smaran.Prelude.{List, [], ◌∷◌, ◌++◌, ◌⊎◌, length, take, drop, get_or, ltb, bytes_eq_iff}
use smaran.Prelude.{
  Bool-cases, inl, inr, take-append-drop, length-take, get_or-take, All, if◌then◌else◌,
}
use native.Mathlib.Decide.{dec_lt}
use smaran.Optiks.Prefix.{Proof, min_length, all_equal, prefix_length, compute_common_proof_prefix}

All-map {ℓ κ μ} :
    {A : Type ℓ} {P : A → Type κ} {Q : A → Type μ} (xs : List A)
    → ((x : A) → P x → Q x)
    → All P xs
    → All Q xs
All-map [] f h = tt
All-map (x ∷ xs) f h = (f x h.0, All-map xs f h.1)

min_length-le : (n : ℕ) (ps : List Proof) → min_length n ps ≤ n
unfolding min_length
min_length-le n [] = omega arith
min_length-le n (p ∷ ps) =
    ground (arith, min_length-le (if ltb (length p) n then length p else n) ps)

min_length-All : (n : ℕ) (ps : List Proof) → All (λ p. min_length n ps ≤ length p) ps
unfolding min_length
min_length-All n [] = tt
min_length-All n (p ∷ ps) =
    let n' = if ltb (length p) n then length p else n in
    (ground (arith, min_length-le n' ps), min_length-All n' ps)

min_length-greatest :
    (m n : ℕ) (ps : List Proof) → m ≤ n → All (λ p. m ≤ length p) ps → m ≤ min_length n ps
unfolding min_length
min_length-greatest m n [] h k = h
min_length-greatest m n (p ∷ ps) h k =
    min_length-greatest m (if ltb (length p) n then length p else n) ps (ground (arith, k.0)) k.1

-- One more equal node makes the prefixes one longer.
take_more :
    (i : ℕ) (p q : Proof)
    → i < length p
    → i < length q
    → take i p ≡ take i q
    → get_or q i [] ≡ get_or p i []
    → take (suc i) p ≡ take (suc i) q
take_more i [] q h k e g = absurd (omega arith)
take_more i (x ∷ p) [] h k e g = absurd (omega arith)
take_more zero (x ∷ p) (y ∷ q) h k e g = cc
take_more (suc i) (x ∷ p) (y ∷ q) h k e g =
    let heads : x ≡ y = cc in
    let tails : take i p ≡ take i q = cc in
    let rest = take_more i p q (omega arith) (omega arith) tails g in cc

all_equal-take :
    (i : ℕ) (first : Proof) (ps : List Proof)
    → i < length first
    → All (λ p. suc i ≤ length p) ps
    → All (λ p. take i p ≡ take i first) ps
    → all_equal (get_or first i []) i ps ≡ true
    → All (λ p. take (suc i) p ≡ take (suc i) first) ps
unfolding all_equal
all_equal-take i first [] h k e a = tt
all_equal-take i first (p ∷ ps) h k e a =
    let same : get_or first i [] ≡ get_or p i [] =
      ground (arith, bytes_eq_iff (get_or first i []) (get_or p i [])) in
    let others : all_equal (get_or first i []) i ps ≡ true = ground arith in
    (take_more i p first k.0 h e.0 same, all_equal-take i first ps h k.1 e.1 others)

module _ (first : Proof) (ps : List Proof) where
  prefix_length-le :
      (rounds i : ℕ)
      → (i ≤ prefix_length rounds i first ps) × (prefix_length rounds i first ps ≤ i + rounds)
  unfolding prefix_length
  prefix_length-le zero i = omega arith
  prefix_length-le (suc rounds) i = ground (arith, prefix_length-le rounds (i + 1))

  prefix_length-take :
      (rounds i : ℕ)
      → i + rounds ≤ length first
      → All (λ p. i + rounds ≤ length p) ps
      → All (λ p. take i p ≡ take i first) ps
      → All
          (λ p.
            take (prefix_length rounds i first ps) p ≡ take (prefix_length rounds i first ps) first)
          ps
  unfolding prefix_length
  prefix_length-take zero i h k e = e
  prefix_length-take (suc rounds) i h k e = elim (Bool-cases (all_equal (get_or first i []) i ps)) [
    | inr stop ↦ rw stop e
    | inl go ↦
        let one : i + 1 ≡ suc i = omega arith in
        rw go (
          prefix_length-take rounds (i + 1) (omega arith) (All-map ps (λ p q. omega arith) k) (
            rw one
              (all_equal-take i first ps (omega arith) (All-map ps (λ p q. omega arith) k) e go)))
  ]

  prefix_length_stop :
      (rounds i : ℕ)
      → (prefix_length rounds i first ps ≡ i + rounds)
        ⊎ (all_equal
              (get_or first (prefix_length rounds i first ps) [])
              (prefix_length rounds i first ps)
              ps
            ≡ false)
  unfolding prefix_length
  prefix_length_stop zero i = inl (omega arith)
  prefix_length_stop (suc rounds) i = elim (Bool-cases (all_equal (get_or first i []) i ps)) [
    | inr stop ↦ rw stop (inr stop)
    | inl go ↦ rw go (elim (prefix_length_stop rounds (i + 1)) [
      | inl e ↦ inl (omega (arith, e))
      | inr e ↦ inr e
    ])
  ]

prefix-length-le : (q p : Proof) → take (length q) p ≡ q → length q ≤ length p
prefix-length-le q p h = omega (arith, ap length h, length-take (length q) p)

-- Proofs that begin alike agree at each position there.
all_equal-prefix :
    (q : Proof) (k : ℕ) (ps : List Proof)
    → k < length q
    → All (λ p. take (length q) p ≡ q) ps
    → all_equal (get_or q k []) k ps ≡ true
unfolding all_equal
all_equal-prefix q k [] h a = refl
all_equal-prefix q k (p ∷ ps) h a =
    let same : get_or q k [] ≡ get_or p k [] =
      ap (λ (r : Proof). get_or r k []) (sym a.0) ∙ get_or-take (length q) k p [] h in
    ground
      (arith, bytes_eq_iff (get_or q k []) (get_or p k []), all_equal-prefix q k ps h a.1, same)

restores :
    (c : Proof) (k : ℕ) → length c ≡ k → (p : Proof) → take k p ≡ c → c ++ drop (length c) p ≡ p
restores c k e p t = rw e (ap (λ (r : Proof). r ++ drop k p) (sym t) ∙ take-append-drop k p)

module _ (first : Proof) (ps : List Proof) where
  min_first : ℕ
  min_first = min_length (length first) ps

  length-common :
      length (compute_common_proof_prefix (first ∷ ps)) ≡ prefix_length (min_first) 0 first ps
  unfolding compute_common_proof_prefix min_first
  length-common = omega (
    arith,
    length-take (prefix_length (min_length (length first) ps) 0 first ps) first,
    prefix_length-le first ps (min_length (length first) ps) 0,
    min_length-le (length first) ps,
  )

  common-take :
      All
        (λ p.
          take (prefix_length min_first 0 first ps) p
          ≡ take (prefix_length min_first 0 first ps) first)
        ps
  unfolding min_first
  common-take =
      prefix_length-take first ps (min_length (length first) ps) 0
        (omega (arith, min_length-le (length first) ps))
        (All-map ps (λ p h. omega arith) (min_length-All (length first) ps)) (All-same ps)
    where
      All-same : (rs : List Proof) → All (λ p. take 0 p ≡ take 0 first) rs
      All-same [] = tt
      All-same (r ∷ rs) = (refl, All-same rs)

  -- Put before what is left of a proof, the common prefix gives the proof back, for every proof.
  pub compute_common_proof_prefix-restores :
      All
        (λ p.
          compute_common_proof_prefix (first ∷ ps)
            ++ drop (length (compute_common_proof_prefix (first ∷ ps))) p
          ≡ p)
        (first ∷ ps)
  unfolding compute_common_proof_prefix min_first
  compute_common_proof_prefix-restores =
      let k = prefix_length (min_length (length first) ps) 0 first ps in
      (
        restores (take k first) k length-common first refl,
        All-map ps (λ p h. restores (take k first) k length-common p h) common-take,
      )

  -- A list of nodes with which every proof begins is no longer than the common prefix.
  pub compute_common_proof_prefix-longest :
      (q : Proof)
      → All (λ p. take (length q) p ≡ q) (first ∷ ps)
      → length q ≤ length (compute_common_proof_prefix (first ∷ ps))
  unfolding min_first
  compute_common_proof_prefix-longest q h =
      let m = min_length (length first) ps in
      let fits : length q ≤ m =
        min_length-greatest (length q) (length first) ps (prefix-length-le q first h.0)
          (All-map ps (λ p e. prefix-length-le q p e) h.1) in
      let k = prefix_length m 0 first ps in
      rw length-common (elim (prefix_length_stop first ps m 0) [
        | inl e ↦ omega (arith, e)
        | inr e ↦ elim (dec_lt k (length q)) [
          | no le ↦ omega arith
          | yes lt ↦
              let at : get_or first k [] ≡ get_or q k [] =
                sym (get_or-take (length q) k first [] lt)
                ∙ ap (λ (r : Proof). get_or r k []) h.0 in
              cc (all_equal-prefix q k ps lt h.1, at, e)
        ]
      ])
