-- ===== src/Verkle/Trie/Delete.antt =====
-- Delete: it never fails on a resolved trie, says whether there was a value, and removes that of its key.
use smaran.Prelude.{
  ℕ, zero, suc, ◌+◌, ◌<◌, ◌≡◌, refl, sym, ap, ◌∙◌, arith, Option, none, Option-cases, Bool,
  Bool-cases, inl, inr,
}
use smaran.Prelude.{
  true, false, List, [], ◌∷◌, ◌++◌, length, length-append, take, get_or, bytes_eq, bytes_eq_iff,
  if◌then◌else◌,
}
use smaran.Prelude.{ltb_of_lt}
use smaran.Account.{update_at}
use smaran.Verkle.{PointCodec, LeafNode, VerkleNode, empty, internal, leaf, hashed, set_value}
use smaran.Verkle.Trie.{
  Resolver, Answer, get, resolve_if_hashed, get_leaf, ok, key_not_found, failed, panic, stem_of,
  suffix_of, delete, delete_leaf,
}
use smaran.Verkle.Trie.Keys.{path-step, get_leaf-set_value, get_leaf-other}
use smaran.Verkle.Trie.Sound.{Resolved, Found, resolve_if_hashed-Kept, get-step}
use smaran.Verkle.Trie.Updated.{Answers, Resolved-update_at, Answers-parent}

abbrev pub is_ok {ℓ} : {A : Type ℓ} → Answer A → Bool
is_ok (ok a) = true
is_ok key_not_found = false
is_ok failed = false
is_ok panic = false

module _ (pc : PointCodec) (resolver : Option Resolver) where
  abbrev Node : Type 0
  Node = VerkleNode pc.crypto.Point

  -- A delete of the key from `m` says whether `m` had it, and gives a node without it.
  abbrev Deletes : ℕ → List ℕ → List ℕ → Node → Answer (Bool × Node) → Type 0
  Deletes room path key m r =
      (m' : Node) × (r ≡ ok (is_ok (get pc resolver room m key), m'))
      × Found pc resolver (Resolved pc resolver room) path m'
      × Answers pc resolver room path m m' key key_not_found

  -- A leaf without the key.
  unchanged :
      (l : LeafNode pc.crypto.Point) (key k : List ℕ)
      → get_leaf l key ≡ key_not_found
      → get_leaf l k ≡ (if bytes_eq key k then key_not_found else get_leaf l k)
  unchanged l key k e = elim (Bool-cases (bytes_eq key k)) [
    | inl same ↦ rw same (ap (λ (x : List ℕ). get_leaf l x) (sym ((bytes_eq_iff key k).0 same)) ∙ e)
    | inr other ↦ rw other refl
  ]

  delete_leaf_lem :
      (room : ℕ) (path key : List ℕ) (l : LeafNode pc.crypto.Point)
      → length key ≡ 32
      → Found pc resolver (Resolved pc resolver room) path (leaf l)
      → Deletes room path key (leaf l) (ok (delete_leaf pc resolver l key))
  unfolding delete_leaf get Found Resolved set_value
  delete_leaf_lem room path key l a h = elim (Bool-cases (bytes_eq l.stem (stem_of key))) [
    | inl same ↦ elim (Option-cases (l.values (suffix_of key))) [
      | inl nothing ↦
          let e : get_leaf l key ≡ key_not_found = unfold get_leaf in rw (same, nothing) refl in
          (leaf l, rw (same, nothing) refl, h, λ k len below. unchanged l key k e)
      | inr (v, there) ↦
          let stems = (bytes_eq_iff l.stem (stem_of key)).0 same in
          (
            leaf (set_value (suffix_of key) none l),
            rw (same, there) refl,
            h,
            λ k len below. get_leaf-set_value l key k none a len stems,
          )
    ]
    | inr other ↦
        let e = get_leaf-other l key other in
        (leaf l, rw other refl, h, λ k len below. unchanged l key k e)
  ]

  delete_child_lem :
      (room : ℕ) (path key : List ℕ)
      → length key ≡ 32
      → ((ch : ℕ → Node) (digest : pc.crypto.Point) (hs : ℕ → ℕ) (x : ℕ) (dirty : Bool)
          → Resolved pc resolver room path (internal ch digest hs x dirty)
          → Deletes room path key
              (internal ch digest hs x dirty)
              (delete pc resolver room (internal ch digest hs x dirty) key))
      → (m : Node) → Found pc resolver (Resolved pc resolver room) path m
      → Deletes room path key m (delete pc resolver room m key)
  unfolding delete get Found
  delete_child_lem room path key a ih empty h = (empty, refl, h, λ k len below. ground arith)
  delete_child_lem room path key a ih (leaf l) h = delete_leaf_lem room path key l a h
  delete_child_lem room path key a ih (hashed digest q) h = absurd h
  delete_child_lem room path key a ih (internal ch digest hs x dirty) h = ih ch digest hs x dirty h

  delete-step :
      (room : ℕ) (ch : ℕ → Node) (digest : pc.crypto.Point) (hs : ℕ → ℕ) (d : ℕ) (dirty : Bool)
      (key : List ℕ)
      → (m m' : Node) → d < 31
      → resolve_if_hashed pc resolver (ch (get_or key d 0)) key d ≡ ok m
      → delete pc resolver room m key ≡ ok (is_ok (get pc resolver room m key), m')
      → let deleted = is_ok (get pc resolver (suc room) (internal ch digest hs d dirty) key) in
        delete pc resolver (suc room) (internal ch digest hs d dirty) key
        ≡ ok (
          deleted,
          internal (update_at (get_or key d 0) m' ch) digest hs d (if deleted then true else dirty),
        )
  unfolding delete
  delete-step room ch digest hs d dirty key m m' lt load run =
      let step = get-step pc resolver room d ch digest hs dirty key m lt load in
      rw (ltb_of_lt d 31 lt, load, run, step) refl

  -- Delete on an internal node replaces one child.
  pub delete-Resolved :
      (room : ℕ) (path : List ℕ) (ch : ℕ → Node) (digest : pc.crypto.Point) (hs : ℕ → ℕ) (d : ℕ)
      (dirty : Bool)
      → (key : List ℕ) → length key ≡ 32
      → take (length path) key ≡ path
      → Resolved pc resolver room path (internal ch digest hs d dirty)
      → (ch' : ℕ → Node) × (dirty' : Bool) × (delete pc resolver room
            (internal ch digest hs d dirty)
            key
          ≡ ok (
            is_ok (get pc resolver room (internal ch digest hs d dirty) key),
            internal ch' digest hs d dirty',
          ))
        × Resolved pc resolver room path (internal ch' digest hs d dirty')
        × Answers pc resolver room path
            (internal ch digest hs d dirty)
            (internal ch' digest hs d dirty')
            key
            key_not_found
  unfolding Resolved Found
  delete-Resolved zero path ch digest hs d dirty key a at h = absurd h
  delete-Resolved (suc room) path ch digest hs d dirty key a at (n, e, kept) =
      let i = get_or key d 0 in
      let path' = path ++ i ∷ [] in
      let below' = path-step path key (omega arith) a at in
      let below : take (d + 1) key ≡ path' = rw n below' in
      let n' : d + 1 ≡ length path' = omega (arith, length-append path (i ∷ [])) in
      let (m, load, found) = resolve_if_hashed-Kept pc resolver room path' d (ch i) (kept i) in
      let (m', run, found', answers) =
        delete_child_lem room path' key a
          (λ ch1 digest1 hs1 x1 dirty1 h1.
            let (c, y, r, s, t) =
              delete-Resolved room path' ch1 digest1 hs1 x1 dirty1 key a (rw (sym n') below) h1 in
            (internal c digest1 hs1 x1 y, r, s, t))
          m found in
      let deleted = is_ok (get pc resolver (suc room) (internal ch digest hs d dirty) key) in
      let dirty' = if deleted then true else dirty in
      (
        update_at i m' ch,
        dirty',
        delete-step room ch digest hs d dirty key m m' (omega arith) (load key below) run,
        Resolved-update_at pc resolver room path ch digest hs d dirty dirty' i m' (n, e, kept)
            found',
        Answers-parent pc resolver room path ch digest hs d dirty dirty' m m' key key_not_found
            (n, e, kept) found' load answers,
      )
