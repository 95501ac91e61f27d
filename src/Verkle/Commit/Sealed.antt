-- ===== src/Verkle/Commit/Sealed.antt =====
-- A trie after Commit: each commitment is the one to what is below it.
use smaran.Prelude.{
  ℕ, zero, suc, ◌<◌, ◌≡◌, refl, sym, ap, ◌∙◌, arith, some, true, false, Bool-cases, inl, inr,
}
use smaran.Prelude.{ltb_of_le, if◌then◌else◌, value_or}
use smaran.Account.Curve.{Crypto, CurveLaws}
use smaran.Account.Sums.{total, term}
use smaran.Verkle.{
  PointCodec, LeafNode, VerkleNode, empty, internal, leaf, hashed, node_commitment, is_dirty,
}
use smaran.Verkle.Serialize.{slot_hash, stub_hash}
use smaran.Verkle.Commit.{FieldSub, slots_loop, commit_leaf, commit, child_hash}
use smaran.Verkle.Commit.Slots.{slots_loop-IsTotal}

module _ (pc : PointCodec) where
  abbrev pub Node : Type 0
  Node = VerkleNode pc.crypto.Point

  -- The commitment of a node is that to its cached hashes; those of what is not dirty are right, and what is
  -- not dirty has nothing dirty in it.
  unfoldable pub Cached : Node → Type 0
  Cached empty = Unit
  Cached (hashed commitment path) = Unit
  Cached (leaf l) =
      (l.commitment ≡ total pc.crypto 256 l.cached_slot_hashes)
      × (l.dirty ≡ false
          → (j : ℕ) → j < 256
          → l.cached_slot_hashes j ≡ slot_hash pc l.stem l.values j)
  Cached (internal ch digest hs d dirty) =
      (digest ≡ total pc.crypto 256 hs)
      × ((j : ℕ) → j < 256 → is_dirty (ch j) ≡ false → hs j ≡ stub_hash pc (ch j))
      × (dirty ≡ false → (j : ℕ) → is_dirty (ch j) ≡ false)
      × ((j : ℕ) → Cached (ch j))

  -- The commitment of each leaf is that to its values and its stem, the commitment of each internal node that
  -- to the commitments of its children.
  unfoldable pub Sealed : Node → Type 0
  Sealed empty = Unit
  Sealed (hashed commitment path) = Unit
  Sealed (leaf l) = l.commitment ≡ total pc.crypto 256 (slot_hash pc l.stem l.values)
  Sealed (internal ch digest hs d dirty) =
      (digest ≡ total pc.crypto 256 (λ j. stub_hash pc (ch j))) × ((j : ℕ) → Sealed (ch j))

total-same :
    (c : Crypto) (n : ℕ) (t u : ℕ → ℕ) → ((j : ℕ) → j < n → t j ≡ u j) → total c n t ≡ total c n u
unfolding total
total-same c zero t u h = refl
total-same c (suc n) t u h =
    let below = total-same c n t u (λ j lt. h j (omega arith)) in
    let here = ap (term c n) (h n (omega arith)) in cc

module _ (pc : PointCodec) (f : FieldSub pc.crypto) where
  commit-clean : (n : Node pc) → is_dirty n ≡ false → commit pc f n ≡ n
  unfolding commit is_dirty commit_leaf
  commit-clean empty h = refl
  commit-clean (hashed commitment path) h = refl
  commit-clean (leaf l) h = rw h refl
  commit-clean (internal ch digest hs d dirty) h = rw h refl

  stub_hash-commit :
      (n : Node pc)
      → is_dirty n ≡ true
      → stub_hash pc (commit pc f n)
        ≡ pc.crypto.commitment_to_hash (node_commitment pc.crypto (commit pc f n))
  unfolding commit is_dirty stub_hash
  stub_hash-commit empty h = cc
  stub_hash-commit (hashed commitment path) h = cc
  stub_hash-commit (leaf l) h = refl
  stub_hash-commit (internal ch digest hs d dirty) h = rw h refl

  -- The children of a node after its Commit, and the state that the loop leaves.
  abbrev pub children_after : (ℕ → Node pc) → ℕ → Node pc
  children_after ch j = if is_dirty (ch j) then commit pc f (ch j) else ch j

  abbrev pub state_after : (ℕ → Node pc) → pc.crypto.Point → (ℕ → ℕ) → pc.crypto.Point × (ℕ → ℕ)
  state_after ch digest hs =
      slots_loop pc.crypto f (λ j. child_hash pc f (ch j) (commit pc f (ch j))) 256 0 (digest, hs)

  pub commit-dirty :
      (ch : ℕ → Node pc) (digest : pc.crypto.Point) (hs : ℕ → ℕ) (d : ℕ)
      → commit pc f (internal ch digest hs d true)
        ≡ internal
            (children_after ch)
            (state_after ch digest hs).0
            (state_after ch digest hs).1
            d
            false
  unfolding commit
  commit-dirty ch digest hs d = refl

  Sealed-child :
      (n : Node pc)
      → Sealed pc (commit pc f n)
      → Sealed pc (if is_dirty n then commit pc f n else n)
  Sealed-child n h = elim (Bool-cases (is_dirty n)) [
    | inl dirty ↦ rw dirty h
    | inr clean ↦ let same = sym (commit-clean n clean) in rw (clean, same) h
  ]

module _ (pc : PointCodec) (laws : CurveLaws pc.crypto) (f : FieldSub pc.crypto) where
  commit_leaf-Sealed :
      (l : LeafNode pc.crypto.Point) → Cached pc (leaf l) → Sealed pc (leaf (commit_leaf pc f l))
  unfolding commit_leaf Cached Sealed
  commit_leaf-Sealed l (e, right) = elim (Bool-cases l.dirty) [
    | inl dirty ↦
        let hashes = λ (j : ℕ). some (slot_hash pc l.stem l.values j) in
        let (final, slots) =
          slots_loop-IsTotal pc.crypto laws f hashes 256 0 (l.commitment, l.cached_slot_hashes)
            (omega arith) e in
        rw dirty (
          final
          ∙ total-same pc.crypto 256 _ (slot_hash pc l.stem l.values)
              (λ j lt. slots j lt ∙ rw (ltb_of_le j 0 (omega arith)) refl))
    | inr clean ↦ rw clean (
        e
        ∙ total-same pc.crypto 256 l.cached_slot_hashes (slot_hash pc l.stem l.values)
            (right clean))
  ]

  -- The hash of a child after the loop is that of its commitment.
  committed_hash :
      (child : Node pc) (old_hash : ℕ)
      → (is_dirty child ≡ false → old_hash ≡ stub_hash pc child)
      → value_or old_hash (child_hash pc f child (commit pc f child))
        ≡ stub_hash pc (if is_dirty child then commit pc f child else child)
  committed_hash child old_hash right = elim (Bool-cases (is_dirty child)) [
    | inl dirty ↦ rw dirty (sym (stub_hash-commit pc f child dirty))
    | inr clean ↦ rw clean (right clean)
  ]

  -- After Commit of a node with right caches each commitment below it is the one to what is there.
  pub commit-Sealed : (n : Node pc) → Cached pc n → Sealed pc (commit pc f n)
  unfolding Cached Sealed
  commit-Sealed empty h = unfold commit in tt
  commit-Sealed (hashed commitment path) h = unfold commit in tt
  commit-Sealed (leaf l) h = unfold commit in commit_leaf-Sealed l h
  commit-Sealed (internal ch digest hs d false) (e, right, all_clean, below) =
      rw (commit-clean pc f (internal ch digest hs d false) (unfold is_dirty in refl)) (
        e
            ∙ total-same pc.crypto 256 hs (λ j. stub_hash pc (ch j))
                (λ j lt. right j lt (all_clean refl j)),
        λ j.
            let sealed = commit-Sealed (ch j) (below j) in
            let same = sym (commit-clean pc f (ch j) (all_clean refl j)) in rw same sealed,
      )
  commit-Sealed (internal ch digest hs d true) (e, right, all_clean, below) =
      let hashes = λ (j : ℕ). child_hash pc f (ch j) (commit pc f (ch j)) in
      let (final, slots) =
        slots_loop-IsTotal pc.crypto laws f hashes 256 0 (digest, hs) (omega arith) e in
      rw (commit-dirty pc f ch digest hs d) (
        final
            ∙ total-same pc.crypto 256 _ (λ j. stub_hash pc (children_after pc f ch j))
                (λ j lt.
                  slots j lt
                  ∙ (rw (ltb_of_le j 0 (omega arith)) refl
                      ∙ committed_hash (ch j) (hs j) (right j lt))),
        λ j. Sealed-child pc f (ch j) (commit-Sealed (ch j) (below j)),
      )
