-- ===== src/Keys/Cache.antt =====
-- The cache of the tree keys holds what is computed without it.
use smaran.Prelude.{ℕ, ◌+◌, ◌*◌, ◌≤◌, ◌≡◌, refl, sym, ◌∙◌, arith, List, [], ◌∷◌, ◌++◌, some}
use smaran.Prelude.{
  length, take, drop, replicate, Map, empty_map, insert, bytes_eq, bytes_eq_iff, Bool-cases, inl,
  inr,
}
use smaran.Prelude.{length-append, length-take, length-drop, Option-cases}
use mathlib.Core.Path.{subst}
use mathlib.Core.Option
use smaran.Bytes.{blit, le_bytes}
use smaran.Bytes.Laws.{length-le_bytes}
use smaran.Keys.{
  GoVerkle, chunk, tree_index_le, address_20_to_32, get_tree_key, get_tree_key_for_basic_data,
  basic_data_leaf_key,
}

length-blit :
    (offset : ℕ) (bs xs : List ℕ)
    → offset + length bs ≤ length xs
    → length (blit offset bs xs) ≡ length xs
unfolding blit
length-blit offset bs xs h = omega (
  arith,
  length-append (take offset xs) (bs ++ drop (offset + length bs) xs),
  length-append bs (drop (offset + length bs) xs),
  length-take offset xs,
  length-drop (offset + length bs) xs,
)

pub length-address_20_to_32 :
    (addr : List ℕ) → length addr ≡ 20 → length (address_20_to_32 addr) ≡ 32
unfolding address_20_to_32
length-address_20_to_32 addr len = length-blit 12 addr (replicate 32 0) (omega arith)

some-injective : {x y : List ℕ} → some x ≡ some y → x ≡ y
some-injective h = cc

module _ (gv : GoVerkle) where
  chunk-some :
      (bs : List ℕ) (i : ℕ) → 16 * i + 16 ≤ length bs → (f : gv.Fr) × (chunk gv bs i ≡ some f)
  unfolding chunk
  chunk-some bs i h =
      gv.from_le_bytes-some (take 16 (drop (16 * i) bs))
        (omega (arith, length-take 16 (drop (16 * i) bs), length-drop (16 * i) bs))

  -- GetTreeKey does not panic on 32 bytes, and its key has 32 bytes.
  pub get_tree_key-some :
      (addr32 : List ℕ) (tree_index sub_index : ℕ)
      → length addr32 ≡ 32
      → (key : List ℕ) × (get_tree_key gv addr32 tree_index sub_index ≡ some key)
        × (length key ≡ 32)
  unfolding get_tree_key tree_index_le Option.bind
  get_tree_key-some addr32 tree_index sub_index len =
      let index = tree_index_le tree_index in
      let size : length index ≡ 32 =
        length-blit 0 (le_bytes 8 tree_index) (replicate 32 0)
          (omega (arith, length-le_bytes 8 tree_index)) in
      let (p1, e1) = chunk-some addr32 0 (omega arith) in
      let (p2, e2) = chunk-some addr32 1 (omega arith) in
      let (p3, e3) = chunk-some index 0 (omega arith) in
      let (p4, e4) = chunk-some index 1 (omega arith) in
      let poly = gv.set_uint64 (2 + 256 * 64) ∷ p1 ∷ p2 ∷ p3 ∷ p4 ∷ replicate 251 gv.zero_fr in
      let h = gv.hash_point_to_bytes (gv.commit_to_poly poly) in
      (
        take 31 h ++ sub_index ∷ [],
        rw (e1, e2, e3, e4) refl,
        omega (
          arith,
          length-append (take 31 h) (sub_index ∷ []),
          length-take 31 h,
          gv.length-hash_point_to_bytes (gv.commit_to_poly poly),
        ),
      )

  -- Every key in the cache is the one of its address.
  pub IsCache : Map (List ℕ) → Type 0
  IsCache cache =
      (addr key : List ℕ)
      → cache addr ≡ some key
      → get_tree_key gv (address_20_to_32 addr) 0 basic_data_leaf_key ≡ some key

  pub empty_map-IsCache : IsCache empty_map
  unfolding IsCache
  empty_map-IsCache addr key h = absurd (cc)

  -- For an address of 20 bytes and a cache that holds only right keys, GetTreeKeyForBasicData does not
  -- panic, returns the key of 32 bytes that GetTreeKey computes, and leaves such a cache.
  pub get_tree_key_for_basic_data-IsCache :
      (cache : Map (List ℕ)) (addr : List ℕ)
      → length addr ≡ 20
      → IsCache cache
      → (key : List ℕ) × (cache' : Map (List ℕ)) × (get_tree_key_for_basic_data gv cache addr
          ≡ some (key, cache'))
        × (get_tree_key gv (address_20_to_32 addr) 0 basic_data_leaf_key ≡ some key)
        × (length key ≡ 32)
        × IsCache cache'
  unfolding get_tree_key_for_basic_data IsCache address_20_to_32
  get_tree_key_for_basic_data-IsCache cache addr len right =
      let size : length (address_20_to_32 addr) ≡ 32 = length-address_20_to_32 addr len in
      let (key, e, long) = get_tree_key-some (address_20_to_32 addr) 0 basic_data_leaf_key size in
      elim (Option-cases (cache addr)) [
        | inr (k, hit) ↦
            let same : key ≡ k = some-injective (sym e ∙ right addr k hit) in
            (
              k,
              cache,
              rw (get_tree_key_for_basic_data, hit) refl,
              right addr k hit,
              rw (← same) long,
              right,
            )
        | inl miss ↦ (
          key,
          insert addr key cache,
          rw (get_tree_key_for_basic_data, miss, e) refl,
          e,
          long,
          λ a k h. elim (Bool-cases (bytes_eq addr a)) [
            | inl here ↦
                subst (λ b. get_tree_key gv (address_20_to_32 b) 0 basic_data_leaf_key ≡ some k)
                  ((bytes_eq_iff addr a).0 here) (e ∙ (rw here at h))
            | inr other ↦ right a k (rw other at h)
          ],
        )
      ]
