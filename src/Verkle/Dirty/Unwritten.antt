-- ===== src/Verkle/Dirty/Unwritten.antt =====
-- A leaf that splitLeaf has moved is not among the dirty paths of the block.
use smaran.Prelude.{
  ℕ, zero, suc, ◌+◌, ◌<◌, ◌≡◌, ◌≢◌, refl, sym, ap, ◌∙◌, arith, Bool, true, false, Bool-cases, inl,
  inr, Option, some,
}
use smaran.Prelude.{
  List, [], ◌∷◌, length, length-take, take, take-take, get_or, get_or-take, ◌==◌, ==_iff, bytes_eq,
  bytes_eq_iff,
}
use smaran.Account.{update_at}
use smaran.Verkle.{PointCodec, LeafNode, VerkleNode, empty, internal, leaf, hashed}
use smaran.Verkle.Trie.{
  Resolver, ok, insert, insert_child, resolve_if_hashed, split_leaf, build_chain, leaf_with,
  stem_of,
}
use smaran.Verkle.Trie.Chain.{Agree, diverge-Agree}
use smaran.Verkle.Trie.Insert.{split_leaf-build_chain}
use smaran.Verkle.Flush.{SerializedNode}
use smaran.Verkle.{is_dirty, set_value, new_leaf_node}
use smaran.Verkle.Commit.{FieldSub, commit}
use smaran.Verkle.Commit.Sealed.{commit-dirty, children_after, state_after}
use smaran.Verkle.Commit.Missed.{build_chain-dirty}
use smaran.Verkle.Dirty.{serialize_dirty_paths}
use smaran.Verkle.Dirty.Prefixes.{Lacks, serialize_dirty_paths-Lacks}

-- The bytes of a stem at `links + 1` positions from `s` on.
abbrev pub segment : ℕ → ℕ → List ℕ → List ℕ
segment zero s stem = get_or stem s 0 ∷ []
segment (suc links) s stem = get_or stem s 0 ∷ segment links (s + 1) stem

length-segment : (links s : ℕ) (stem : List ℕ) → length (segment links s stem) ≡ suc links
length-segment zero s stem = refl
length-segment (suc links) s stem = ap suc (length-segment links (s + 1) stem)

-- Where two stems differ at the end of a segment, no prefix of the second is a path that ends with it.
segment-apart :
    (links s : ℕ) (old_stem new_stem : List ℕ)
    → Agree links s old_stem new_stem
    → get_or (segment links s old_stem) links 0 ≢ get_or new_stem (s + links) 0
segment-apart zero s old_stem new_stem g e =
    g (e ∙ ap (λ (i : ℕ). get_or new_stem i 0) (omega arith))
segment-apart (suc links) s old_stem new_stem (same, g) e =
    segment-apart links (s + 1) old_stem new_stem g
      (e ∙ ap (λ (i : ℕ). get_or new_stem i 0) (omega arith))

path-apart :
    (i links : ℕ) (old_stem new_stem : List ℕ)
    → Agree links 1 old_stem new_stem
    → take (length (i ∷ segment links 1 old_stem)) new_stem ≢ i ∷ segment links 1 old_stem
path-apart i links old_stem new_stem g e =
    let seg = segment links 1 old_stem in
    let within : suc links < length (i ∷ seg) = omega (arith, length-segment links 1 old_stem) in
    segment-apart links 1 old_stem new_stem g (
      sym (ap (λ (s : List ℕ). get_or s (suc links) 0) e)
      ∙ (get_or-take (length (i ∷ seg)) (suc links) new_stem 0 within
          ∙ ap (λ (x : ℕ). get_or new_stem x 0) (omega arith)))

module _ {P : Type 0} where
  -- The node at a path below a node.
  unfoldable pub node_at : VerkleNode P → List ℕ → VerkleNode P
  node_at n [] = n
  node_at empty (i ∷ path) = empty
  node_at (internal ch digest hs d dirty) (i ∷ path) = node_at (ch i) path
  node_at (leaf l) (i ∷ path) = empty
  node_at (hashed digest q) (i ∷ path) = empty

  node_at-build_chain :
      (zero_digest : P) (links s : ℕ) (l new_leaf : LeafNode P)
      → Agree links s l.stem new_leaf.stem
      → node_at (build_chain zero_digest links s l new_leaf) (segment links s l.stem) ≡ leaf l
  unfolding node_at build_chain
  node_at-build_chain zero_digest zero s l new_leaf g =
      let here : (get_or l.stem s 0 == get_or l.stem s 0) ≡ true = ground arith in
      elim (Bool-cases (get_or l.stem s 0 == get_or new_leaf.stem s 0)) [
        | inl same ↦ absurd (g ((==_iff (get_or l.stem s 0) (get_or new_leaf.stem s 0)).0 same))
        | inr other ↦ rw (other, here) refl
      ]
  node_at-build_chain zero_digest (suc links) s l new_leaf (same, g) =
      let here : (get_or l.stem s 0 == get_or l.stem s 0) ≡ true = ground arith in
      rw here (node_at-build_chain zero_digest links (s + 1) l new_leaf g)

module _ (pc : PointCodec) (resolver : Option Resolver) where
  -- Insert of a key where a leaf with another stem hangs from the root.
  insert-split :
      (ch : ℕ → VerkleNode pc.crypto.Point) (digest : pc.crypto.Point) (hs : ℕ → ℕ) (dirty : Bool)
      → (l : LeafNode pc.crypto.Point) (key value : List ℕ) → ch (get_or key 0 0) ≡ leaf l
      → l.stem ≢ stem_of key
      → insert pc resolver 31 (internal ch digest hs 0 dirty) key value
        ≡ ok (
            internal
              (update_at (get_or key 0 0) (split_leaf pc resolver l key value 1) ch)
              digest
              hs
              0
              true)
  unfolding insert insert_child resolve_if_hashed
  insert-split ch digest hs dirty l key value there ne =
      let apart : bytes_eq l.stem (stem_of key) ≡ false =
        elim (Bool-cases (bytes_eq l.stem (stem_of key))) [
          | inl same ↦ absurd (ne ((bytes_eq_iff l.stem (stem_of key)).0 same))
          | inr other ↦ other
        ] in
      rw (there, apart) refl

module _ (pc : PointCodec) (f : FieldSub pc.crypto) where
  children_after-dirty :
      (ch : ℕ → VerkleNode pc.crypto.Point) (j : ℕ) (m : VerkleNode pc.crypto.Point)
      → ch j ≡ m
      → is_dirty m ≡ true
      → children_after pc f ch j ≡ commit pc f m
  children_after-dirty ch j m e dirty = rw (e, dirty) refl

  -- Commit leaves a clean leaf below a chain where it is.
  node_at-commit-build_chain :
      (links s : ℕ) (l new_leaf : LeafNode pc.crypto.Point)
      → l.dirty ≡ false
      → Agree links s l.stem new_leaf.stem
      → node_at
          (commit pc f (build_chain pc.crypto.infinity links s l new_leaf))
          (segment links s l.stem)
        ≡ leaf l
  unfolding node_at build_chain is_dirty
  node_at-commit-build_chain zero s l new_leaf clean g =
      let old = get_or l.stem s 0 in
      let new = get_or new_leaf.stem s 0 in
      let here : (old == old) ≡ true = ground arith in
      let ch = update_at new (leaf new_leaf) (update_at old (leaf l) (λ i. empty)) in
      elim (Bool-cases (old == new)) [
        | inl same ↦ absurd (g ((==_iff old new).0 same))
        | inr other ↦
            rw (commit-dirty pc f ch pc.crypto.infinity (λ i. 0) s) (rw (other, here, clean) refl)
      ]
  node_at-commit-build_chain (suc links) s l new_leaf clean (same, g) =
      let old = get_or l.stem s 0 in
      let here : (old == old) ≡ true = ground arith in
      let m = build_chain pc.crypto.infinity links (s + 1) l new_leaf in
      let ch = update_at old m (λ i. empty) in
      rw (commit-dirty pc f ch pc.crypto.infinity (λ i. 0) s) (
        ap (λ (n : VerkleNode pc.crypto.Point). node_at n (segment links (s + 1) l.stem))
          (children_after-dirty ch old m (rw here refl)
            (build_chain-dirty pc f links (s + 1) l new_leaf))
        ∙ node_at-commit-build_chain links (s + 1) l new_leaf clean g)

  -- Where a clean leaf hangs from the root, the Insert of a key with the same first byte and another stem moves
  -- it to a longer path. After Commit it is there as before, but what the dirty paths of this key write has
  -- nothing under that path.
  pub insert-unwritten :
      (resolver : Option Resolver) (ch : ℕ → VerkleNode pc.crypto.Point) (digest : pc.crypto.Point)
      (hs : ℕ → ℕ)
      → (dirty : Bool) (l : LeafNode pc.crypto.Point) (key value : List ℕ) → length key ≡ 32
      → length l.stem ≡ 31
      → take 1 l.stem ≡ take 1 key
      → l.stem ≢ stem_of key
      → l.dirty ≡ false
      → ch (get_or key 0 0) ≡ leaf l
      → (root' : VerkleNode pc.crypto.Point) × (path : List ℕ) × (nodes : List SerializedNode)
        × (commitment : List ℕ) × (insert pc resolver 31 (internal ch digest hs 0 dirty) key value
            ≡ ok root')
        × (node_at (commit pc f root') path ≡ leaf l)
        × (serialize_dirty_paths pc (commit pc f root') (stem_of key ∷ [])
            ≡ some (nodes, commitment))
        × Lacks path nodes
  unfolding set_value new_leaf_node node_at
  insert-unwritten resolver ch digest hs dirty l key value len size first ne clean there =
      let s_size : length (stem_of key) ≡ 31 = omega (arith, length-take 31 key) in
      let at = first ∙ sym (take-take 1 31 key (omega arith)) in
      let (links, d, lt, agree) =
        diverge-Agree 30 1 l.stem (stem_of key) (omega arith) size s_size at ne in
      let chain = split_leaf-build_chain pc resolver 30 1 links l key value (omega arith) lt d in
      let i = get_or key 0 0 in
      let here : (i == i) ≡ true = ground arith in
      let seg = segment links 1 l.stem in
      let m = split_leaf pc resolver l key value 1 in
      let ch' = update_at i m ch in
      let st = state_after pc f ch' digest hs in
      let after = commit-dirty pc f ch' digest hs 0 in
      let dirty_chain : is_dirty m ≡ true =
        rw chain (build_chain-dirty pc f links 1 l (leaf_with pc resolver key value)) in
      let stays : node_at (commit pc f m) seg ≡ leaf l =
        rw chain
          (node_at-commit-build_chain links 1 l (leaf_with pc resolver key value) clean agree) in
      let (nodes, written, lacks) =
        serialize_dirty_paths-Lacks pc (children_after pc f ch') st.0 st.1 0 false
          (stem_of key ∷ []) (i ∷ seg) (λ e. omega (arith, ap length e))
          (path-apart i links l.stem (stem_of key) agree, tt) in
      (
        internal ch' digest hs 0 true,
        i ∷ seg,
        nodes,
        pc.point_bytes st.0,
        insert-split pc resolver ch digest hs dirty l key value there ne,
        rw after (
            ap (λ (n : VerkleNode pc.crypto.Point). node_at n seg)
              (children_after-dirty ch' i m (rw here refl) dirty_chain)
            ∙ stays),
        rw after written,
        lacks,
      )
