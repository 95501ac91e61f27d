-- ===== src/Verkle/Trie/Sound.antt =====
-- Tries whose hashed nodes can be loaded: what a path of bytes leads to.
use smaran.Prelude.{ℕ, zero, suc, ◌+◌, ◌<◌, ◌≡◌, refl, ap, ◌∙◌, Option, Bool}
use smaran.Prelude.{List, [], ◌∷◌, ◌++◌, length, take, get_or}
use smaran.Verkle.{PointCodec, VerkleNode, empty, internal, leaf, hashed}
use smaran.Prelude.{ltb_of_lt}
use smaran.Verkle.Trie.{Resolver, ok, load, resolve_if_hashed, get}

module _ (pc : PointCodec) (resolver : Option Resolver) where
  abbrev Node : Type 0
  Node = VerkleNode pc.crypto.Point

  -- A child at a path: nothing, a stub whose path loads a node that is `R`, or such a node itself.
  unfoldable pub Kept : (List ℕ → Node → Type 0) → List ℕ → Node → Type 0
  Kept R path empty = Unit
  Kept R path (internal ch digest hs d dirty) = R path (internal ch digest hs d dirty)
  Kept R path (leaf l) = R path (leaf l)
  Kept R path (hashed digest q) = (m : Node) × (load pc resolver resolver path ≡ ok m) × R path m

  -- A node at a path with `room` bytes of the stem below: a leaf has the path in its stem, an internal node
  -- has the length of the path as its depth, and its children are so, one byte on.
  unfoldable pub Resolved : ℕ → List ℕ → Node → Type 0
  unfolding Kept
  Resolved room path empty = ⊥
  Resolved room path (leaf l) = (length l.stem ≡ 31) × (take (length path) l.stem ≡ path)
  Resolved room path (hashed digest q) = ⊥
  Resolved zero path (internal ch digest hs d dirty) = ⊥
  Resolved (suc room) path (internal ch digest hs d dirty) =
      (d ≡ length path)
      × (length path + suc room ≡ 31)
      × ((i : ℕ) → Kept (Resolved room) (path ++ i ∷ []) (ch i))

  -- What loading leaves at a path.
  unfoldable pub Found : (List ℕ → Node → Type 0) → List ℕ → Node → Type 0
  Found R path empty = Unit
  Found R path (internal ch digest hs d dirty) = R path (internal ch digest hs d dirty)
  Found R path (leaf l) = R path (leaf l)
  Found R path (hashed digest q) = ⊥

  pub Found-Resolved :
      (room : ℕ) (path : List ℕ) (m : Node) → Resolved room path m → Found (Resolved room) path m
  unfolding Found Resolved
  Found-Resolved room path empty h = tt
  Found-Resolved room path (leaf l) h = h
  Found-Resolved room path (hashed digest q) h = h
  Found-Resolved room path (internal ch digest hs d dirty) h = h

  pub Kept-Found :
      (room : ℕ) (path : List ℕ) (m : Node)
      → Found (Resolved room) path m
      → Kept (Resolved room) path m
  unfolding Kept Found
  Kept-Found room path empty h = tt
  Kept-Found room path (leaf l) h = h
  Kept-Found room path (hashed digest q) h = absurd h
  Kept-Found room path (internal ch digest hs d dirty) h = h

  -- A child that is kept is loaded to the same node by every key with its path.
  pub resolve_if_hashed-Kept :
      (room : ℕ) (path : List ℕ) (d : ℕ) (n : Node)
      → Kept (Resolved room) path n
      → (m : Node) × ((k : List ℕ)
          → take (d + 1) k ≡ path
          → resolve_if_hashed pc resolver n k d ≡ ok m)
        × Found (Resolved room) path m
  unfolding resolve_if_hashed Kept Found
  resolve_if_hashed-Kept room path d empty h = (empty, (λ k e. refl), tt)
  resolve_if_hashed-Kept room path d (leaf l) h = (leaf l, (λ k e. refl), h)
  resolve_if_hashed-Kept room path d (internal ch digest hs e dirty) h =
      (internal ch digest hs e dirty, (λ k e. refl), h)
  resolve_if_hashed-Kept room path d (hashed digest q) (m, e, r) =
      (m, (λ k p. ap (load pc resolver resolver) p ∙ e), Found-Resolved room path m r)

  -- A node that was loaded is loaded to itself.
  pub resolve_if_hashed-Found :
      (room : ℕ) (path : List ℕ) (m : Node) (k : List ℕ) (d : ℕ)
      → Found (Resolved room) path m
      → resolve_if_hashed pc resolver m k d ≡ ok m
  unfolding resolve_if_hashed Found
  resolve_if_hashed-Found room path empty k d h = refl
  resolve_if_hashed-Found room path (leaf l) k d h = refl
  resolve_if_hashed-Found room path (hashed digest q) k d h = absurd h
  resolve_if_hashed-Found room path (internal ch digest hs e dirty) k d h = refl

  pub get-step :
      (fuel d : ℕ) (ch : ℕ → Node) (digest : pc.crypto.Point) (hs : ℕ → ℕ) (dirty : Bool)
      (k : List ℕ) (m : Node)
      → d < 31
      → resolve_if_hashed pc resolver (ch (get_or k d 0)) k d ≡ ok m
      → get pc resolver (suc fuel) (internal ch digest hs d dirty) k ≡ get pc resolver fuel m k
  unfolding get
  get-step fuel d ch digest hs dirty k m lt e = rw (e, ltb_of_lt d 31 lt) refl
