-- ===== src/Verkle/Trie/Chain.antt =====
-- splitLeaf: the chain of internal nodes down to where two stems differ.
use smaran.Prelude.{
  ℕ, zero, suc, ◌+◌, ◌<◌, ◌≡◌, ◌≢◌, refl, sym, ap, ◌∙◌, arith, Option, Bool-cases, inl, inr,
}
use smaran.Prelude.{
  true, false, List, [], ◌∷◌, ◌++◌, length, length-append, take, take-get_or, take-length, get_or,
  ◌==◌, ==_iff, bytes_eq, if◌then◌else◌,
}
use smaran.Account.{update_at}
use smaran.Verkle.{PointCodec, LeafNode, empty, leaf}
use smaran.Verkle.Trie.{
  Resolver, Answer, diverge, build_chain, get_leaf, get, resolve_if_hashed, stem_of, key_not_found,
}
use smaran.Verkle.Trie.Keys.{stems_apart, get_leaf-other}
use smaran.Verkle.Trie.Sound.{
  Resolved, Kept, Found-Resolved, Kept-Found, resolve_if_hashed-Found, get-step,
}

-- Two stems agree at `links` positions from `d` on, and differ at the next.
abbrev pub Agree : ℕ → ℕ → List ℕ → List ℕ → Type 0
Agree zero d old_stem new_stem = get_or old_stem d 0 ≢ get_or new_stem d 0
Agree (suc links) d old_stem new_stem =
    (get_or old_stem d 0 ≡ get_or new_stem d 0) × Agree links (d + 1) old_stem new_stem

differ : (a b : ℕ) → (a == b) ≡ false → b ≢ a
differ a b e = ground (arith, ==_iff a b)

take_more :
    (d : ℕ) (xs ys : List ℕ)
    → d < length xs
    → d < length ys
    → take d xs ≡ take d ys
    → get_or xs d 0 ≡ get_or ys d 0
    → take (d + 1) xs ≡ take (d + 1) ys
take_more d xs ys a b t e =
    let more : d + 1 ≡ suc d = omega arith in
    rw (more, take-get_or d xs 0 a, take-get_or d ys 0 b, t, e) refl

-- The loop finds the first position where different stems differ.
pub diverge-Agree :
    (room d : ℕ) (old_stem new_stem : List ℕ)
    → room + d ≡ 31
    → length old_stem ≡ 31
    → length new_stem ≡ 31
    → take d old_stem ≡ take d new_stem
    → old_stem ≢ new_stem
    → (links : ℕ) × (diverge room d old_stem new_stem ≡ d + links)
      × (links < room)
      × Agree links d old_stem new_stem
unfolding diverge
diverge-Agree zero d xs ys e a b t ne = absurd (
    ne (
      sym (take-length xs)
      ∙ (ap (λ (n : ℕ). take n xs) (omega arith)
          ∙ (t ∙ (ap (λ (n : ℕ). take n ys) (omega arith) ∙ take-length ys)))))
diverge-Agree (suc room) d xs ys e a b t ne = elim (Bool-cases (get_or xs d 0 == get_or ys d 0)) [
  | inl same ↦
      let at = (==_iff (get_or xs d 0) (get_or ys d 0)).0 same in
      let (links, r, lt, agree) =
        diverge-Agree room (d + 1) xs ys (omega arith) a b
          (take_more d xs ys (omega arith) (omega arith) t at) ne in
      (suc links, rw same (omega arith), omega arith, (at, agree))
  | inr other ↦ (
    0,
    rw other (omega arith),
    omega arith,
    ground (arith, ==_iff (get_or xs d 0) (get_or ys d 0)),
  )
]

module _ (pc : PointCodec) (resolver : Option Resolver) where
  abbrev Point : Type 0
  Point = pc.crypto.Point

  -- The path of the child of a leaf's stem.
  child_path :
      (path stem : List ℕ) (d i : ℕ)
      → d < 31
      → d ≡ length path
      → length stem ≡ 31
      → take d stem ≡ path
      → get_or stem d 0 ≡ i
      → take (d + 1) stem ≡ path ++ i ∷ []
  child_path path stem d i lt n e t at =
      let more : d + 1 ≡ suc d = omega arith in
      rw (more, take-get_or d stem 0 (omega arith), t, at) refl

  leaf_at :
      (room : ℕ) (path : List ℕ) (l : LeafNode Point) (d i : ℕ)
      → d < 31
      → d ≡ length path
      → length l.stem ≡ 31
      → take d l.stem ≡ path
      → get_or l.stem d 0 ≡ i
      → Resolved pc resolver room (path ++ i ∷ []) (leaf l)
  unfolding Resolved
  leaf_at room path l d i lt n e t at =
      let more : length (path ++ i ∷ []) ≡ d + 1 = omega (arith, length-append path (i ∷ [])) in
      (e, rw more (child_path path l.stem d i lt n e t at))

  -- The new leaf answers where the stems are equal, the existing one elsewhere.
  abbrev pub choose : LeafNode Point → LeafNode Point → List ℕ → Answer (List ℕ)
  choose existing new_leaf k =
      if bytes_eq new_leaf.stem (stem_of k) then get_leaf new_leaf k else get_leaf existing k

  choose-new :
      (existing new_leaf : LeafNode Point) (k : List ℕ) (d : ℕ)
      → d < 31
      → get_or existing.stem d 0 ≢ get_or k d 0
      → get_leaf new_leaf k ≡ choose existing new_leaf k
  choose-new existing new_leaf k d lt ne =
      let apart = get_leaf-other existing k (stems_apart existing k d lt ne) in
      ground (arith, get_leaf-other new_leaf k, apart)

  choose-existing :
      (existing new_leaf : LeafNode Point) (k : List ℕ) (d : ℕ)
      → d < 31
      → get_or new_leaf.stem d 0 ≢ get_or k d 0
      → get_leaf existing k ≡ choose existing new_leaf k
  choose-existing existing new_leaf k d lt ne = rw (stems_apart new_leaf k d lt ne) refl

  pub build_chain-Resolved :
      (room links d : ℕ) (path : List ℕ) (existing new_leaf : LeafNode Point)
      → room + d ≡ 31
      → d ≡ length path
      → links < room
      → length existing.stem ≡ 31
      → length new_leaf.stem ≡ 31
      → take d existing.stem ≡ path
      → take d new_leaf.stem ≡ path
      → Agree links d existing.stem new_leaf.stem
      → Resolved pc resolver room path (build_chain pc.crypto.infinity links d existing new_leaf)
  unfolding build_chain Resolved Kept
  build_chain-Resolved zero links d path ex new e n lt a b t u g = absurd (omega arith)
  build_chain-Resolved (suc room) zero d path ex new e n lt a b t u g = (
    n,
    omega arith,
    λ j. elim (Bool-cases (j == get_or new.stem d 0)) [
      | inl same ↦
          let at = (==_iff j (get_or new.stem d 0)).0 same in
          rw same (leaf_at room path new d j (omega arith) n b u (sym at))
      | inr other ↦ elim (Bool-cases (j == get_or ex.stem d 0)) [
        | inl same ↦
            let at = (==_iff j (get_or ex.stem d 0)).0 same in
            rw (other, same) (leaf_at room path ex d j (omega arith) n a t (sym at))
        | inr neither ↦ rw (other, neither) tt
      ]
    ],
  )
  build_chain-Resolved (suc room) (suc links) d path ex new e n lt a b t u (same, g) =
      let i = get_or ex.stem d 0 in
      let deeper =
        build_chain-Resolved room links (d + 1) (path ++ i ∷ []) ex new (omega arith)
          (omega (arith, length-append path (i ∷ []))) (omega arith) a b
          (child_path path ex.stem d i (omega arith) n a t refl)
          (child_path path new.stem d i (omega arith) n b u (sym same)) g in
      (
        n,
        omega arith,
        λ j. elim (Bool-cases (j == i)) [
          | inl at ↦
              let at' = (==_iff j i).0 at in
              rw (at, at')
                (let m = build_chain pc.crypto.infinity links (d + 1) ex new in
                  Kept-Found pc resolver room (path ++ i ∷ []) m
                    (Found-Resolved pc resolver room (path ++ i ∷ []) m deeper))
          | inr other ↦ rw other tt
        ],
      )

  -- A key with another byte than both stems is in neither leaf.
  choose-neither :
      (existing new_leaf : LeafNode Point) (k : List ℕ) (d : ℕ)
      → d < 31
      → get_or existing.stem d 0 ≢ get_or k d 0
      → get_or new_leaf.stem d 0 ≢ get_or k d 0
      → choose existing new_leaf k ≡ key_not_found
  choose-neither ex new k d lt ne ne' =
      sym (choose-existing ex new k d lt ne') ∙ get_leaf-other ex k (stems_apart ex k d lt ne)

  pub get-build_chain :
      (room links d : ℕ) (path k : List ℕ) (existing new_leaf : LeafNode Point)
      → room + d ≡ 31
      → d ≡ length path
      → links < room
      → length existing.stem ≡ 31
      → length new_leaf.stem ≡ 31
      → take d existing.stem ≡ path
      → take d new_leaf.stem ≡ path
      → Agree links d existing.stem new_leaf.stem
      → get pc resolver room (build_chain pc.crypto.infinity links d existing new_leaf) k
        ≡ choose existing new_leaf k
  unfolding build_chain get resolve_if_hashed
  get-build_chain zero links d path k ex new e n lt a b t u g = absurd (omega arith)
  get-build_chain (suc room) zero d path k ex new e n lt a b t u g =
      let step = get-step pc resolver room d in
      let ch =
        update_at (get_or new.stem d 0) (leaf new)
          (update_at (get_or ex.stem d 0) (leaf ex) (λ i. empty)) in
      let c = get_or k d 0 in
      elim (Bool-cases (c == get_or new.stem d 0)) [
        | inl same ↦
            let at = (==_iff c (get_or new.stem d 0)).0 same in
            step ch pc.crypto.infinity (λ x. 0) true k (leaf new) (omega arith) (rw same refl)
            ∙ choose-new ex new k d (omega arith) (λ p. g (p ∙ at))
        | inr other ↦
            let apart = differ c (get_or new.stem d 0) other in
            elim (Bool-cases (c == get_or ex.stem d 0)) [
              | inl same ↦
                  step ch pc.crypto.infinity (λ x. 0) true k (leaf ex) (omega arith)
                    (rw (other, same) refl)
                  ∙ choose-existing ex new k d (omega arith) apart
              | inr neither ↦
                  step ch pc.crypto.infinity (λ x. 0) true k empty (omega arith)
                    (rw (other, neither) refl)
                  ∙ sym (
                      choose-neither ex new k d (omega arith)
                        (differ c (get_or ex.stem d 0) neither) apart)
            ]
      ]
  get-build_chain (suc room) (suc links) d path k ex new e n lt a b t u (same, g) =
      let i = get_or ex.stem d 0 in
      let step = get-step pc resolver room d in
      let c = get_or k d 0 in
      let m = build_chain pc.crypto.infinity links (d + 1) ex new in
      let ch = update_at i m (λ x. empty) in
      let path' = path ++ i ∷ [] in
      let n' : d + 1 ≡ length path' = omega (arith, length-append path (i ∷ [])) in
      let t' = child_path path ex.stem d i (omega arith) n a t refl in
      let u' = child_path path new.stem d i (omega arith) n b u (sym same) in
      elim (Bool-cases (c == i)) [
        | inl at ↦
            step ch pc.crypto.infinity (λ x. 0) true k m (omega arith)
              (rw at (
                resolve_if_hashed-Found pc resolver room path' m k d (
                  Found-Resolved pc resolver room path' m (
                    build_chain-Resolved room links (d + 1) path' ex new (omega arith) n'
                      (omega arith) a b t' u' g))))
            ∙ get-build_chain room links (d + 1) path' k ex new (omega arith) n' (omega arith) a b
                t' u' g
        | inr other ↦
            step ch pc.crypto.infinity (λ x. 0) true k empty (omega arith) (rw other refl)
            ∙ sym (
                choose-neither ex new k d (omega arith) (differ c i other)
                  (λ p. differ c i other (same ∙ p)))
      ]
