-- ===== src/Verkle/Trie.antt =====
-- internal/verklekzg/tree/tree.go: Get, Insert and Delete, with the loading of hashed nodes.
-- A key has 32 bytes, as every caller passes it; a byte of the key beyond would be 0 here. The code changes
-- nodes in place; here an operation returns the new node. After an error the code keeps the children that
-- it has loaded, which stand for the same subtrees.
pub mod Keys
pub mod Sound
pub mod Chain
pub mod Updated
pub mod Insert
pub mod Delete
pub mod Refines
pub mod Loaded
use smaran.Prelude.{
  ℕ, zero, suc, ◌+◌, ◌-◌, Bool, true, false, Option, some, none, List, [], replicate, take, get_or,
}
use smaran.Prelude.{ltb, ◌==◌, bytes_eq, if◌then◌else◌}
use smaran.Bytes.{blit}
use smaran.Account.{update_at}
use smaran.Verkle.{
  PointCodec, LeafNode, VerkleNode, empty, internal, leaf, hashed, new_leaf_node, set_value,
}
use smaran.Verkle.Serialize.{parse_node}

-- `key_not_found` is the error of that name, `failed` any other error. `panic` is an index out of range,
-- or the end of the fuel.
pub data Answer {ℓ} (A : Type ℓ) : Type ℓ where
  ok : A → Answer A
  key_not_found failed panic : Answer A

-- NodeResolverFn; an error is `none`.
abbrev pub Resolver : Type 0
Resolver = List ℕ → Option (List ℕ)

abbrev pub stem_of : List ℕ → List ℕ
stem_of key = take 31 key

abbrev pub suffix_of : List ℕ → ℕ
suffix_of key = get_or key 31 0

-- `var v [32]byte; copy(v[:], value)`
unfoldable pub to_value : List ℕ → List ℕ
to_value value = blit 0 (take 32 value) (replicate 32 0)

-- The loop of splitLeaf, from `depth` on with the rounds that are left before 31.
unfoldable pub diverge : ℕ → ℕ → List ℕ → List ℕ → ℕ
diverge zero depth old_stem new_stem = depth
diverge (suc rounds) depth old_stem new_stem =
    let rest = diverge rounds (depth + 1) old_stem new_stem in
    if get_or old_stem depth 0 == get_or new_stem depth 0 then rest else depth

module _ {P : Type 0} where
  unfoldable pub get_leaf : LeafNode P → List ℕ → Answer (List ℕ)
  get_leaf l key =
      if bytes_eq l.stem (stem_of key)
      then elim (l.values (suffix_of key)) [ none ↦ key_not_found | some v ↦ ok v ]
      else key_not_found

  -- buildChain: `links` internal nodes with one child, then one with both leaves.
  unfoldable pub build_chain : P → ℕ → ℕ → LeafNode P → LeafNode P → VerkleNode P
  build_chain zero_digest zero d existing new_leaf =
      internal
        (update_at (get_or new_leaf.stem d 0) (leaf new_leaf)
          (update_at (get_or existing.stem d 0) (leaf existing) (λ i. empty)))
        zero_digest (λ i. 0) d true
  build_chain zero_digest (suc links) d existing new_leaf =
      internal
        (update_at (get_or existing.stem d 0)
          (build_chain zero_digest links (d + 1) existing new_leaf) (λ i. empty))
        zero_digest (λ i. 0) d true

module _ (pc : PointCodec) (resolver : Option Resolver) where
  abbrev pub leaf_with : List ℕ → List ℕ → LeafNode pc.crypto.Point
  leaf_with key value =
      set_value (suffix_of key) (some (to_value value)) (new_leaf_node pc.crypto (stem_of key))

  unfoldable pub split_leaf :
      LeafNode pc.crypto.Point → List ℕ → List ℕ → ℕ → VerkleNode pc.crypto.Point
  unfolding diverge build_chain new_leaf_node set_value to_value
  split_leaf existing key value start_depth =
      let depth = diverge (31 - start_depth) start_depth existing.stem (stem_of key) in
      if ltb depth 31
      then build_chain pc.crypto.infinity (depth - start_depth) start_depth existing
          (leaf_with key value)
      else leaf (set_value (suffix_of key) (some (to_value value)) existing)

  abbrev pub parsed : Option (List ℕ) → Answer (VerkleNode pc.crypto.Point)
  parsed none = failed
  parsed (some bytes) = elim (parse_node pc bytes) [ none ↦ failed | some n ↦ ok n ]

  abbrev pub load : Option Resolver → List ℕ → Answer (VerkleNode pc.crypto.Point)
  load none path = failed
  load (some f) path = parsed (f path)

  unfoldable pub resolve_if_hashed :
      VerkleNode pc.crypto.Point → List ℕ → ℕ → Answer (VerkleNode pc.crypto.Point)
  unfolding parse_node
  resolve_if_hashed empty key parent_depth = ok empty
  resolve_if_hashed (internal ch digest hs d dirty) key parent_depth =
      ok (internal ch digest hs d dirty)
  resolve_if_hashed (leaf l) key parent_depth = ok (leaf l)
  resolve_if_hashed (hashed digest path) key parent_depth =
      load resolver (take (parent_depth + 1) key)

  unfoldable pub get : ℕ → VerkleNode pc.crypto.Point → List ℕ → Answer (List ℕ)
  unfolding get_leaf resolve_if_hashed
  get fuel empty key = key_not_found
  get fuel (leaf l) key = get_leaf l key
  get fuel (hashed digest path) key = failed
  get zero (internal ch digest hs d dirty) key = panic
  get (suc fuel) (internal ch digest hs d dirty) key =
      if ltb d 31
      then elim (resolve_if_hashed (ch (get_or key d 0)) key d) [
        | ok child ↦ get fuel child key
        | key_not_found ↦ key_not_found
        | failed ↦ failed
        | panic ↦ panic
      ]
      else panic

  -- The switch of Insert on the child of a node at `depth`, after it was loaded; `deeper` is the Insert of an
  -- internal child.
  unfoldable pub insert_child :
      (VerkleNode pc.crypto.Point → Answer (VerkleNode pc.crypto.Point))
      → VerkleNode pc.crypto.Point
      → List ℕ
      → List ℕ
      → ℕ
      → Answer (VerkleNode pc.crypto.Point)
  unfolding split_leaf set_value new_leaf_node to_value
  insert_child deeper empty key value depth = ok (leaf (leaf_with key value))
  insert_child deeper (internal ch digest hs d dirty) key value depth =
      deeper (internal ch digest hs d dirty)
  insert_child deeper (leaf l) key value depth =
      if bytes_eq l.stem (stem_of key)
      then ok (leaf (set_value (suffix_of key) (some (to_value value)) l))
      else ok (split_leaf l key value (depth + 1))
  insert_child deeper (hashed digest path) key value depth = failed

  -- Insert; on a leaf the stems must agree.
  unfoldable pub insert :
      ℕ → VerkleNode pc.crypto.Point → List ℕ → List ℕ → Answer (VerkleNode pc.crypto.Point)
  unfolding insert_child resolve_if_hashed
  insert fuel empty key value = failed
  insert fuel (leaf l) key value =
      if bytes_eq l.stem (stem_of key)
      then ok (leaf (set_value (suffix_of key) (some (to_value value)) l))
      else failed
  insert fuel (hashed digest path) key value = failed
  insert zero (internal ch digest hs d dirty) key value = panic
  insert (suc fuel) (internal ch digest hs d dirty) key value =
      if ltb d 31
      then elim (resolve_if_hashed (ch (get_or key d 0)) key d) [
        | ok child ↦ elim (insert_child (λ n. insert fuel n key value) child key value d) [
          | ok child' ↦ ok (internal (update_at (get_or key d 0) child' ch) digest hs d true)
          | key_not_found ↦ key_not_found
          | failed ↦ failed
          | panic ↦ panic
        ]
        | key_not_found ↦ key_not_found
        | failed ↦ failed
        | panic ↦ panic
      ]
      else panic

  -- Delete of a leaf: whether there was a value, and the leaf.
  unfoldable pub delete_leaf : LeafNode pc.crypto.Point → List ℕ → Bool × VerkleNode pc.crypto.Point
  unfolding set_value
  delete_leaf l key =
      if bytes_eq l.stem (stem_of key)
      then elim (l.values (suffix_of key)) [
        | none ↦ (false, leaf l)
        | some v ↦ (true, leaf (set_value (suffix_of key) none l))
      ]
      else (false, leaf l)

  unfoldable pub delete :
      ℕ → VerkleNode pc.crypto.Point → List ℕ → Answer (Bool × VerkleNode pc.crypto.Point)
  unfolding delete_leaf resolve_if_hashed
  delete fuel empty key = ok (false, empty)
  delete fuel (leaf l) key = ok (delete_leaf l key)
  delete fuel (hashed digest path) key = failed
  delete zero (internal ch digest hs d dirty) key = panic
  delete (suc fuel) (internal ch digest hs d dirty) key =
      if ltb d 31
      then elim (resolve_if_hashed (ch (get_or key d 0)) key d) [
        | ok child ↦ elim (delete fuel child key) [
          | ok (deleted, child') ↦ ok (
            deleted,
            internal (update_at (get_or key d 0) child' ch) digest hs d
                (if deleted then true else dirty),
          )
          | key_not_found ↦ key_not_found
          | failed ↦ failed
          | panic ↦ panic
        ]
        | key_not_found ↦ key_not_found
        | failed ↦ failed
        | panic ↦ panic
      ]
      else panic
