-- ===== src/Verkle/Trie/Keys.antt =====
-- The leaves of the trie: which key a value belongs to.
use smaran.Prelude.{
  ℕ, zero, suc, ◌+◌, ◌<◌, ◌≡◌, ◌≢◌, refl, sym, ap, ◌∙◌, arith, Option, some, none, Bool-cases, inl,
  inr,
}
use smaran.Prelude.{
  false, List, [], ◌∷◌, length, take, get_or, get_or-take, take-get_or, ◌++◌, ◌==◌, ◌&&◌, bytes_eq,
  bytes_eq_iff, if◌then◌else◌, ==_iff,
}
use smaran.Verkle.{LeafNode, set_value}
use smaran.Verkle.Trie.{Answer, ok, key_not_found, get_leaf, stem_of, suffix_of}

-- What a slot answers.
abbrev pub slot_answer : Option (List ℕ) → Answer (List ℕ)
slot_answer none = key_not_found
slot_answer (some v) = ok v

-- Two lists of `suc n` bytes are equal when the first n bytes and the last one are.
bytes_eq-take :
    (n : ℕ) (xs ys : List ℕ)
    → length xs ≡ suc n
    → length ys ≡ suc n
    → bytes_eq xs ys ≡ (bytes_eq (take n xs) (take n ys) && get_or xs n 0 == get_or ys n 0)
unfolding bytes_eq
bytes_eq-take n [] ys a b = absurd (omega arith)
bytes_eq-take n (x ∷ xs) [] a b = absurd (omega arith)
bytes_eq-take zero (x ∷ []) (y ∷ []) a b = ground arith
bytes_eq-take zero (x ∷ x' ∷ xs) (y ∷ ys) a b = absurd (omega arith)
bytes_eq-take zero (x ∷ []) (y ∷ y' ∷ ys) a b = absurd (omega arith)
bytes_eq-take (suc n) (x ∷ xs) (y ∷ ys) a b =
    ground (arith, bytes_eq-take n xs ys (omega arith) (omega arith))

module _ {P : Type 0} where
  pub stems_apart :
      (l : LeafNode P) (k : List ℕ) (d : ℕ)
      → d < 31
      → get_or l.stem d 0 ≢ get_or k d 0
      → bytes_eq l.stem (stem_of k) ≡ false
  stems_apart l k d lt ne = elim (Bool-cases (bytes_eq l.stem (take 31 k))) [
    | inl e ↦ absurd (
        ne (
          ap (λ (s : List ℕ). get_or s d 0) ((bytes_eq_iff l.stem (take 31 k)).0 e)
          ∙ get_or-take 31 d k 0 lt))
    | inr e ↦ e
  ]

  pub get_leaf-other :
      (l : LeafNode P) (k : List ℕ)
      → bytes_eq l.stem (stem_of k) ≡ false
      → get_leaf l k ≡ key_not_found
  unfolding get_leaf
  get_leaf-other l k e = rw e refl

  -- Writing a slot of the leaf of a key changes the answer at that key.
  pub get_leaf-set_value :
      (l : LeafNode P) (key k : List ℕ) (v : Option (List ℕ))
      → length key ≡ 32
      → length k ≡ 32
      → l.stem ≡ stem_of key
      → get_leaf (set_value (suffix_of key) v l) k
        ≡ (if bytes_eq key k then slot_answer v else get_leaf l k)
  unfolding get_leaf set_value
  get_leaf-set_value l key k v a b e =
      rw (bytes_eq-take 31 key k a b, e)
        (ground (arith, ==_iff (suffix_of k) (suffix_of key), ==_iff (suffix_of key) (suffix_of k)))

-- Keys of 32 bytes that differ at a byte are different.
pub bytes_apart : (key k : List ℕ) (d : ℕ) → get_or k d 0 ≢ get_or key d 0 → bytes_eq key k ≡ false
bytes_apart key k d ne = elim (Bool-cases (bytes_eq key k)) [
  | inl e ↦ absurd (ne (sym (ap (λ (s : List ℕ). get_or s d 0) ((bytes_eq_iff key k).0 e))))
  | inr e ↦ e
]

-- A key that goes on with the byte of the child has the path of the child.
pub path-step :
    (path k : List ℕ)
    → length path < 32
    → length k ≡ 32
    → take (length path) k ≡ path
    → take (length path + 1) k ≡ path ++ get_or k (length path) 0 ∷ []
path-step path k lt e p =
    let more : length path + 1 ≡ suc (length path) = omega arith in
    ap (λ (n : ℕ). take n k) more
    ∙ (take-get_or (length path) k 0 (omega arith)
        ∙ ap (λ (s : List ℕ). s ++ get_or k (length path) 0 ∷ []) p)
