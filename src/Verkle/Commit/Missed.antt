-- ===== src/Verkle/Commit/Missed.antt =====
-- What Commit leaves out: the value of the last slot, and a leaf that splitLeaf has moved.
use smaran.Prelude.{
  ℕ, zero, suc, ◌+◌, ◌≡◌, ◌≢◌, refl, sym, ap, ◌∙◌, arith, Option, some, true, false, Bool-cases,
  inl, inr,
}
use smaran.Prelude.{
  List, length, length-take, take, take-take, get_or, ◌==◌, bytes_eq, bytes_eq_refl,
}
use mathlib.Core.Path.{fun_ext}
use smaran.Account.{update_at}
use smaran.Verkle.{
  PointCodec, LeafNode, VerkleNode, empty, internal, leaf, node_commitment, is_dirty, set_value,
}
use smaran.Verkle.Serialize.{slot_hash}
use smaran.Verkle.Trie.{
  Resolver, get, diverge, get_leaf, stem_of, suffix_of, build_chain, split_leaf, leaf_with,
}
use smaran.Verkle.Trie.Keys.{slot_answer, get_leaf-set_value}
use smaran.Verkle.Trie.Chain.{diverge-Agree}
use smaran.Verkle.Trie.Insert.{split_leaf-build_chain, split_leaf-get}
use smaran.Verkle.Commit.Sealed.{commit-dirty}
use smaran.Verkle.Commit.{FieldSub, slots_loop, commit_leaf, commit, child_hash}

module _ (pc : PointCodec) (f : FieldSub pc.crypto) where
  -- The hashes of the slots do not depend on the value of the last one.
  slot_hash-last :
      (stem : List ℕ) (values : ℕ → Option (List ℕ)) (v w : Option (List ℕ)) (j : ℕ)
      → slot_hash pc stem (update_at 255 v values) j ≡ slot_hash pc stem (update_at 255 w values) j
  unfolding slot_hash
  slot_hash-last stem values v w j = elim (Bool-cases (j == 255)) [
    | inl last ↦ rw last refl
    | inr other ↦ rw other refl
  ]

  commit_leaf-last :
      (l : LeafNode pc.crypto.Point) (v w : Option (List ℕ))
      → (commit_leaf pc f (set_value 255 v l)).commitment
        ≡ (commit_leaf pc f (set_value 255 w l)).commitment
  unfolding commit_leaf set_value
  commit_leaf-last l v w =
      let hashes : (λ (j : ℕ). some (slot_hash pc l.stem (update_at 255 v l.values) j))
          ≡ (λ (j : ℕ). some (slot_hash pc l.stem (update_at 255 w l.values) j)) =
        fun_ext (λ j. ap some (slot_hash-last l.stem l.values v w j)) in
      ap
        (λ (hs : ℕ → Option ℕ).
          (slots_loop pc.crypto f hs 256 0 (l.commitment, l.cached_slot_hashes)).0)
        hashes

  get_leaf-commit_leaf :
      (l : LeafNode pc.crypto.Point) (key : List ℕ)
      → get_leaf (commit_leaf pc f l) key ≡ get_leaf l key
  unfolding get_leaf commit_leaf
  get_leaf-commit_leaf l key = elim (Bool-cases l.dirty) [
    | inl dirty ↦ rw dirty refl
    | inr clean ↦ rw clean refl
  ]

  -- A leaf takes a value in its last slot and answers it, but its commitment after Commit is the same for each
  -- value there and for none.
  pub commit_leaf-last_slot :
      (l : LeafNode pc.crypto.Point) (key : List ℕ) (v w : Option (List ℕ))
      → length key ≡ 32
      → l.stem ≡ stem_of key
      → suffix_of key ≡ 255
      → (get_leaf (commit_leaf pc f (set_value 255 v l)) key ≡ slot_answer v)
        × (get_leaf (commit_leaf pc f (set_value 255 w l)) key ≡ slot_answer w)
        × ((commit_leaf pc f (set_value 255 v l)).commitment
            ≡ (commit_leaf pc f (set_value 255 w l)).commitment)
  commit_leaf-last_slot l key v w len stem last =
      (answers l key v len stem last, answers l key w len stem last, commit_leaf-last l v w)
    where
      answers :
          (l : LeafNode pc.crypto.Point) (key : List ℕ) (v : Option (List ℕ))
          → length key ≡ 32
          → l.stem ≡ stem_of key
          → suffix_of key ≡ 255
          → get_leaf (commit_leaf pc f (set_value 255 v l)) key ≡ slot_answer v
      answers l key v len stem last =
          get_leaf-commit_leaf (set_value 255 v l) key
          ∙ (ap (λ (i : ℕ). get_leaf (set_value i v l) key) (sym last)
              ∙ (get_leaf-set_value l key key v len len stem ∙ rw (bytes_eq_refl key) refl))

  -- Nodes whose children count alike in the loop get the same commitment.
  commit-alike :
      (ch ch' : ℕ → VerkleNode pc.crypto.Point) (digest : pc.crypto.Point) (hs : ℕ → ℕ) (d : ℕ)
      → ((j : ℕ)
          → child_hash pc f (ch j) (commit pc f (ch j))
            ≡ child_hash pc f (ch' j) (commit pc f (ch' j)))
      → node_commitment pc.crypto (commit pc f (internal ch digest hs d true))
        ≡ node_commitment pc.crypto (commit pc f (internal ch' digest hs d true))
  unfolding node_commitment
  commit-alike ch ch' digest hs d h =
      let hashes : (λ (j : ℕ). child_hash pc f (ch j) (commit pc f (ch j)))
          ≡ (λ (j : ℕ). child_hash pc f (ch' j) (commit pc f (ch' j))) =
        fun_ext h in
      rw (commit-dirty pc f ch digest hs d, commit-dirty pc f ch' digest hs d)
        (ap (λ (g : ℕ → Option ℕ). (slots_loop pc.crypto f g 256 0 (digest, hs)).0) hashes)

  pub build_chain-dirty :
      (links d : ℕ) (l new_leaf : LeafNode pc.crypto.Point)
      → is_dirty (build_chain pc.crypto.infinity links d l new_leaf) ≡ true
  unfolding build_chain is_dirty
  build_chain-dirty zero d l new_leaf = refl
  build_chain-dirty (suc links) d l new_leaf = refl

  -- What the loop takes of the two children of a split.
  pair_alike :
      (d j : ℕ) (l l' new_leaf : LeafNode pc.crypto.Point)
      → l.stem ≡ l'.stem
      → l.dirty ≡ false
      → l'.dirty ≡ false
      → let child = λ (x : LeafNode pc.crypto.Point).
        update_at
          (get_or new_leaf.stem d 0)
          (leaf new_leaf)
          (update_at (get_or x.stem d 0) (leaf x) (λ i. empty))
          j in
        child_hash pc f (child l) (commit pc f (child l))
        ≡ child_hash pc f (child l') (commit pc f (child l'))
  unfolding is_dirty
  pair_alike d j l l' new_leaf stems clean clean' =
      elim (Bool-cases (j == get_or new_leaf.stem d 0)) [
        | inl new ↦ rw new refl
        | inr other ↦ elim (Bool-cases (j == get_or l'.stem d 0)) [
          | inl old ↦ rw (stems, other, old, clean, clean') refl
          | inr neither ↦ rw (stems, other, neither) refl
        ]
      ]

  link_alike :
      (i j : ℕ) (m m' : VerkleNode pc.crypto.Point)
      → is_dirty m ≡ true
      → is_dirty m' ≡ true
      → node_commitment pc.crypto (commit pc f m) ≡ node_commitment pc.crypto (commit pc f m')
      → let child = λ (x : VerkleNode pc.crypto.Point). update_at i x (λ k. empty) j in
        child_hash pc f (child m) (commit pc f (child m))
        ≡ child_hash pc f (child m') (commit pc f (child m'))
  link_alike i j m m' dirty dirty' e = elim (Bool-cases (j == i)) [
    | inl same ↦ rw (same, dirty, dirty', e) refl
    | inr other ↦ rw other refl
  ]

  build_chain-alike :
      (links d : ℕ) (l l' new_leaf : LeafNode pc.crypto.Point)
      → l.stem ≡ l'.stem
      → l.dirty ≡ false
      → l'.dirty ≡ false
      → node_commitment pc.crypto (commit pc f (build_chain pc.crypto.infinity links d l new_leaf))
        ≡ node_commitment pc.crypto
            (commit pc f (build_chain pc.crypto.infinity links d l' new_leaf))
  unfolding build_chain
  build_chain-alike zero d l l' new_leaf stems clean clean' =
      commit-alike _ _ pc.crypto.infinity (λ i. 0) d
        (λ j. pair_alike d j l l' new_leaf stems clean clean')
  build_chain-alike (suc links) d l l' new_leaf stems clean clean' =
      let ih = build_chain-alike links (d + 1) l l' new_leaf stems clean clean' in
      let m = build_chain pc.crypto.infinity links (d + 1) l new_leaf in
      let m' = build_chain pc.crypto.infinity links (d + 1) l' new_leaf in
      let at = ap (λ (s : List ℕ). get_or s d 0) stems in
      rw at (
        commit-alike (update_at (get_or l'.stem d 0) m (λ i. empty))
          (update_at (get_or l'.stem d 0) m' (λ i. empty)) pc.crypto.infinity (λ i. 0) d
          (λ j.
            link_alike (get_or l'.stem d 0) j m m' (build_chain-dirty links (d + 1) l new_leaf)
              (build_chain-dirty links (d + 1) l' new_leaf) ih))

  -- splitLeaf keeps what Get answers for the old leaf, but after Commit the commitment of the subtree is the same
  -- for each two clean old leaves with one stem, whatever their values are.
  pub commit-split_leaf :
      (resolver : Option Resolver) (l l' : LeafNode pc.crypto.Point) (key value k : List ℕ)
      (room s : ℕ)
      → room + s ≡ 31
      → length key ≡ 32
      → length k ≡ 32
      → length l.stem ≡ 31
      → take s l.stem ≡ take s key
      → take s k ≡ take s key
      → l.stem ≢ stem_of key
      → bytes_eq key k ≡ false
      → l.stem ≡ l'.stem
      → l.dirty ≡ false
      → l'.dirty ≡ false
      → (get pc resolver room (split_leaf pc resolver l key value s) k ≡ get_leaf l k)
        × (get pc resolver room (split_leaf pc resolver l' key value s) k ≡ get_leaf l' k)
        × (node_commitment pc.crypto (commit pc f (split_leaf pc resolver l key value s))
            ≡ node_commitment pc.crypto (commit pc f (split_leaf pc resolver l' key value s)))
  commit-split_leaf resolver l l' key value k room s e len lk ls at below ne other stems clean
        clean' =
      let size : length (stem_of key) ≡ 31 = omega (arith, length-take 31 key) in
      let at1 : take s l.stem ≡ take s (stem_of key) =
        at ∙ sym (take-take s 31 key (omega arith)) in
      let (links, d, lt, agree) = diverge-Agree room s l.stem (stem_of key) e ls size at1 ne in
      let d' : diverge room s l'.stem (stem_of key) ≡ s + links = rw (sym stems) d in
      let kept = split_leaf-get pc resolver room s l key value k e len lk ls at below ne other in
      let kept' =
        split_leaf-get pc resolver room s l' key value k e len lk (rw (sym stems) ls)
          (rw (sym stems) at) below (λ p. ne (stems ∙ p)) other in
      (
        kept,
        kept',
        rw
            (
              split_leaf-build_chain pc resolver room s links l key value e lt d,
              split_leaf-build_chain pc resolver room s links l' key value e lt d',
            )
            (build_chain-alike links s l l' (leaf_with pc resolver key value) stems clean clean'),
      )
