-- ===== src/Verkle/Inputs.antt =====
-- Small leaves and tries.
use smaran.Prelude.{
  ℕ, ◌≡◌, refl, Bool, true, false, Option, some, none, List, [], ◌∷◌, ◌++◌, replicate, length,
  arith, ◌==◌, ap, ◌≤◌, Bool-cases, inl, inr, sym, ◌∙◌, value_or,
}
use smaran.Account.{update_at}
use smaran.Verkle.{LeafNode, VerkleNode, empty, leaf, internal, hashed, is_nil}
use smaran.Verkle.Serialize.{stub_hash}
use smaran.Verkle.Trie.Refines.{put, remove, Change}
use smaran.Verkle.Flush.{SerializedNode, batch_serialize}
use smaran.Verkle.Flush.Reload.{Whole}
use smaran.Prelude.{value_or}
use smaran.Prelude.{◌≢◌, get_or, sym, ap, arith}
use smaran.Account.Sums.{total-empty}
use smaran.Verkle.{is_dirty}
use smaran.Verkle.Trie.{stem_of}
use smaran.Verkle.Commit.Sealed.{Cached}
use smaran.Verkle.Sample.{two_points-CurveLaws}
use smaran.Verkle.Sample.{two_codec, two_points}

abbrev pub sample_stem : List ℕ
sample_stem = 5 ∷ replicate 30 0

abbrev pub sample_key : List ℕ
sample_key = sample_stem ++ 3 ∷ []

-- Its stem differs from that of `sample_key` at byte 2.
abbrev pub other_key : List ℕ
other_key = 5 ∷ 0 ∷ 9 ∷ replicate 29 0

-- A split, an update of a leaf, and two removals of which the second finds nothing.
abbrev pub sample_changes : List Change
sample_changes =
    put sample_key (1 ∷ [])
    ∷ put other_key (2 ∷ [])
    ∷ put other_key (7 ∷ [])
    ∷ remove sample_key
    ∷ remove sample_key
    ∷ []

-- One value, in slot 3.
abbrev pub sample_leaf : LeafNode Bool
sample_leaf = record {
  stem = sample_stem;
  values = update_at 3 (some (replicate 32 1)) (λ i. none);
  commitment = true;
  cached_slot_hashes = λ i. 0;
  dirty = true;
}

pub sample_leaf-slots : (i : ℕ) (v : List ℕ) → sample_leaf.values i ≡ some v → length v ≡ 32
sample_leaf-slots i v e = elim (Bool-cases (i == 3)) [
  | inl same ↦
      let p : sample_leaf.values i ≡ some (replicate 32 1) = rw same refl in
      ap (λ (o : Option (List ℕ)). length (value_or [] o)) (sym e ∙ p)
  | inr other ↦ let p : sample_leaf.values i ≡ none = rw other refl in cc
]

pub sample_leaf-none : (i : ℕ) → 256 ≤ i → sample_leaf.values i ≡ none
sample_leaf-none i lt = let other : (i == 3) ≡ false = ground arith in rw other refl

abbrev pub sample_children : ℕ → VerkleNode Bool
sample_children = update_at 5 (leaf sample_leaf) (update_at 9 (hashed false []) (λ i. empty))

pub sample_children-array : (i : ℕ) → 256 ≤ i → is_nil (sample_children i) ≡ true
unfolding is_nil
sample_children-array i lt =
    let other : (i == 5) ≡ false = ground arith in
    let neither : (i == 9) ≡ false = ground arith in rw (other, neither) refl

-- The leaf of `sample_key` with no commitment yet, under a root that has none either.
abbrev pub fresh_leaf : LeafNode Bool
fresh_leaf = record sample_leaf { commitment = false }

abbrev pub fresh_root : VerkleNode Bool
fresh_root = internal (update_at 5 (leaf fresh_leaf) (λ i. empty)) false (λ i. 0) 0 true

pub fresh_leaf-Cached : Cached two_codec (leaf fresh_leaf)
unfolding Cached
fresh_leaf-Cached = (sym (total-empty two_points two_points-CurveLaws 256), λ clean. cc)

pub fresh_child :
    (j : ℕ)
    → (is_dirty (update_at 5 (leaf fresh_leaf) (λ i. empty) j) ≡ false
        → ◌≡◌ {A = ℕ} 0 (stub_hash two_codec (update_at 5 (leaf fresh_leaf) (λ i. empty) j)))
      × Cached two_codec (update_at 5 (leaf fresh_leaf) (λ i. empty) j)
unfolding is_dirty Cached stub_hash
fresh_child j = elim (Bool-cases (j == 5)) [
  | inl same ↦ rw same ((λ clean. cc), fresh_leaf-Cached)
  | inr other ↦ rw other ((λ clean. refl), tt)
]

pub fresh_root-Cached : Cached two_codec fresh_root
unfolding Cached
fresh_root-Cached = (
  sym (total-empty two_points two_points-CurveLaws 256),
  (λ j lt. (fresh_child j).0),
  (λ clean. cc),
  λ j. (fresh_child j).1,
)

abbrev pub last_key : List ℕ
last_key = sample_stem ++ 255 ∷ []

-- Two clean leaves with one stem and different values.
abbrev pub clean_leaf : LeafNode Bool
clean_leaf = record sample_leaf { dirty = false }

abbrev pub clean_other : LeafNode Bool
clean_other = record clean_leaf { values = λ i. some (replicate 32 2); commitment = false }

pub sample_stem-apart : sample_stem ≢ stem_of other_key
sample_stem-apart e = absurd (omega (arith, ap (λ (s : List ℕ). get_or s 2 0) e))

-- The nodes of a root with the leaf of `sample_key` at byte 5.
abbrev pub sample_root : VerkleNode Bool
sample_root = internal (update_at 5 (leaf sample_leaf) (λ i. empty)) true (λ i. 0) 0 true

abbrev pub sample_nodes : List SerializedNode
sample_nodes = value_or [] (batch_serialize two_codec sample_root [])

pub sample_root-array :
    (i : ℕ) → 256 ≤ i → is_nil (update_at 5 (leaf sample_leaf) (λ j. empty) i) ≡ true
unfolding is_nil
sample_root-array i lt = let other : (i == 5) ≡ false = ground arith in rw other refl

pub sample_root-below :
    (i : ℕ) → Whole two_codec 30 (i ∷ []) (update_at 5 (leaf sample_leaf) (λ j. empty) i)
unfolding Whole
sample_root-below i = elim (Bool-cases (i == 5)) [
  | inl same ↦ rw same (refl, (sample_leaf-slots, sample_leaf-none))
  | inr other ↦ rw other tt
]

pub sample_root-Whole : Whole two_codec 31 [] sample_root
unfolding Whole
sample_root-Whole = (refl, refl, sample_root-array, sample_root-below)
