-- ===== src/Verkle/Ingest/Committed.antt =====
-- Commit changes no answer of Get.
use smaran.Prelude.{ℕ, zero, suc, ◌≡◌, refl, ap, true, false, Option, List}
use smaran.Prelude.{Bool-cases, inl, inr, if◌then◌else◌, ltb, get_or}
use smaran.Verkle.{PointCodec, LeafNode, VerkleNode, empty, internal, leaf, hashed, is_dirty}
use smaran.Verkle.Trie.{Resolver, Answer, ok, failed, get, get_leaf, resolve_if_hashed}
use smaran.Verkle.Commit.{FieldSub, commit, commit_leaf}

module _ (pc : PointCodec) (f : FieldSub pc.crypto) (resolver : Option Resolver) where
  abbrev Node : Type 0
  Node = VerkleNode pc.crypto.Point

  get_leaf-commit_leaf :
      (l : LeafNode pc.crypto.Point) (k : List ℕ) → get_leaf (commit_leaf pc f l) k ≡ get_leaf l k
  unfolding commit_leaf get_leaf
  get_leaf-commit_leaf l k = elim (Bool-cases l.dirty) [ inl e ↦ rw e refl | inr e ↦ rw e refl ]

  -- What Get goes on with below a node.
  abbrev get_child : ℕ → Node → List ℕ → ℕ → Answer (List ℕ)
  get_child fuel child k d = elim (resolve_if_hashed pc resolver child k d) [
    | ok n ↦ get pc resolver fuel n k
    | Answer.key_not_found ↦ Answer.key_not_found
    | failed ↦ failed
    | Answer.panic ↦ Answer.panic
  ]

  get_child-commit :
      (fuel : ℕ) (child : Node) (k : List ℕ) (d : ℕ)
      → get pc resolver fuel (commit pc f child) k ≡ get pc resolver fuel child k
      → get_child fuel (commit pc f child) k d ≡ get_child fuel child k d
  unfolding commit resolve_if_hashed
  get_child-commit fuel empty k d h = refl
  get_child-commit fuel (leaf l) k d h = h
  get_child-commit fuel (hashed digest path) k d h = refl
  get_child-commit fuel (internal ch digest hs e true) k d h = h
  get_child-commit fuel (internal ch digest hs e false) k d h = refl

  -- Commit changes no answer of Get.
  pub get-commit :
      (fuel : ℕ) (n : Node) (k : List ℕ)
      → get pc resolver fuel (commit pc f n) k ≡ get pc resolver fuel n k
  unfolding commit get
  get-commit fuel empty k = refl
  get-commit fuel (leaf l) k = get_leaf-commit_leaf l k
  get-commit fuel (hashed digest path) k = refl
  get-commit fuel (internal ch digest hs d false) k = refl
  get-commit zero (internal ch digest hs d true) k = refl
  get-commit (suc fuel) (internal ch digest hs d true) k =
      let below =
        get_child-commit fuel (ch (get_or k d 0)) k d (get-commit fuel (ch (get_or k d 0)) k) in
      elim (Bool-cases (is_dirty (ch (get_or k d 0)))) [
        | inl e ↦ rw e (ap (λ (a : Answer (List ℕ)). if ltb d 31 then a else Answer.panic) below)
        | inr e ↦ rw e refl
      ]
