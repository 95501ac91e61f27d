-- ===== src/Verkle/Trie/Updated.antt =====
-- What a change of one key does to the answers of a node and of its parent.
use smaran.Prelude.{ℕ, suc, ◌+◌, ◌≡◌, sym, ap, ◌∙◌, arith, Option, Bool, Bool-cases, inl, inr}
use smaran.Prelude.{
  List, [], ◌∷◌, ◌++◌, length, length-append, take, get_or, ◌==◌, ==_iff, bytes_eq, if◌then◌else◌,
}
use smaran.Account.{update_at}
use smaran.Verkle.{PointCodec, VerkleNode, internal}
use smaran.Verkle.Trie.{Resolver, Answer, get, resolve_if_hashed, ok}
use smaran.Verkle.Trie.Keys.{path-step, bytes_apart}
use smaran.Verkle.Trie.Sound.{
  Resolved, Found, Kept-Found, resolve_if_hashed-Found, resolve_if_hashed-Kept, get-step,
}

module _ (pc : PointCodec) (resolver : Option Resolver) where
  abbrev Node : Type 0
  Node = VerkleNode pc.crypto.Point

  -- `m'` answers `a` at the key, and as `m` at the other keys of the path.
  abbrev pub Answers : ℕ → List ℕ → Node → Node → List ℕ → Answer (List ℕ) → Type 0
  Answers room path m m' key a =
      (k : List ℕ)
      → length k ≡ 32
      → take (length path) k ≡ path
      → get pc resolver room m' k ≡ (if bytes_eq key k then a else get pc resolver room m k)

  module _ (room : ℕ) (path : List ℕ) (ch : ℕ → Node) (digest : pc.crypto.Point) (hs : ℕ → ℕ)
      (d : ℕ) where
    -- A child by its update: the node stays resolved.
    pub Resolved-update_at :
        (dirty dirty' : Bool) (i : ℕ) (m' : Node)
        → Resolved pc resolver (suc room) path (internal ch digest hs d dirty)
        → Found pc resolver (Resolved pc resolver room) (path ++ i ∷ []) m'
        → Resolved pc resolver (suc room) path (internal (update_at i m' ch) digest hs d dirty')
    unfolding Resolved
    Resolved-update_at dirty dirty' i m' (n, e, kept) found = (
      n,
      e,
      λ j. elim (Bool-cases (j == i)) [
        | inl same ↦
            let at = (==_iff j i).0 same in
            rw (same, at) (Kept-Found pc resolver room (path ++ i ∷ []) m' found)
        | inr other ↦ rw other (kept j)
      ],
    )

    -- The parent's answers, from those of the child that the key leads to.
    pub Answers-parent :
        (dirty dirty' : Bool) (m m' : Node) (key : List ℕ) (a : Answer (List ℕ))
        → Resolved pc resolver (suc room) path (internal ch digest hs d dirty)
        → Found pc resolver (Resolved pc resolver room) (path ++ get_or key d 0 ∷ []) m'
        → ((k : List ℕ)
            → take (d + 1) k ≡ path ++ get_or key d 0 ∷ []
            → resolve_if_hashed pc resolver (ch (get_or key d 0)) k d ≡ ok m)
        → Answers room (path ++ get_or key d 0 ∷ []) m m' key a
        → Answers
            (suc room)
            path
            (internal ch digest hs d dirty)
            (internal (update_at (get_or key d 0) m' ch) digest hs d dirty')
            key
            a
    unfolding Resolved
    Answers-parent dirty dirty' m m' key a (n, e, kept) found loaded answers k len at =
        let i = get_or key d 0 in
        let c = get_or k d 0 in
        let here : take d k ≡ path = rw n at in
        let below = path-step path k (omega arith) len at in
        let below' : take (d + 1) k ≡ path ++ c ∷ [] = rw n below in
        let step = get-step pc resolver room d in
        elim (Bool-cases (c == i)) [
          | inl same ↦
              let p = (==_iff c i).0 same in
              let child : take (d + 1) k ≡ path ++ i ∷ [] =
                below' ∙ ap (λ (x : ℕ). path ++ x ∷ []) p in
              let size : length (path ++ i ∷ []) ≡ d + 1 =
                omega (arith, length-append path (i ∷ [])) in
              let child' : take (length (path ++ i ∷ [])) k ≡ path ++ i ∷ [] = rw size child in
              let new = step (update_at i m' ch) digest hs dirty' k m' (omega arith) (
                rw same (resolve_if_hashed-Found pc resolver room (path ++ i ∷ []) m' k d found)) in
              let old =
                step ch digest hs dirty k m (omega arith)
                  (ap (λ (x : ℕ). resolve_if_hashed pc resolver (ch x) k d) p ∙ loaded k child) in
              new
              ∙ (answers k len child'
                  ∙ ap (λ (x : Answer (List ℕ)). if bytes_eq key k then a else x) (sym old))
          | inr other ↦
              let (mj, load, found_j) =
                resolve_if_hashed-Kept pc resolver room (path ++ c ∷ []) d (ch c) (kept c) in
              let new =
                step (update_at i m' ch) digest hs dirty' k mj (omega arith)
                  (rw other (load k below')) in
              let old = step ch digest hs dirty k mj (omega arith) (load k below') in
              rw (bytes_apart key k d (λ q. ground (arith, ==_iff c i, q))) (new ∙ sym old)
        ]
