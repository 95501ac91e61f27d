-- ===== src/Verkle/Trie/Insert.antt =====
-- Insert: it never fails on a resolved trie, and changes the answer at its key only.
use smaran.Prelude.{
  ℕ, zero, suc, ◌+◌, ◌-◌, ◌<◌, ◌≡◌, ◌≢◌, refl, sym, ap, ◌∙◌, arith, Option, some, Bool, Bool-cases,
  inl, inr,
}
use smaran.Prelude.{
  true, false, List, [], ◌∷◌, ◌++◌, length, length-append, length-take, take, take-take, get_or,
  bytes_eq, bytes_eq_iff, if◌then◌else◌,
}
use smaran.Prelude.{ltb_of_lt}
use smaran.Account.{update_at}
use smaran.Verkle.{
  PointCodec, LeafNode, VerkleNode, empty, internal, leaf, hashed, set_value, new_leaf_node,
}
use smaran.Verkle.Trie.{
  Resolver, Answer, get, get_leaf, ok, key_not_found, stem_of, suffix_of, to_value, leaf_with,
}
use smaran.Verkle.Trie.{insert, insert_child, split_leaf, diverge, build_chain}
use smaran.Verkle.Trie.Keys.{path-step, get_leaf-set_value, get_leaf-other}
use smaran.Verkle.Trie.Chain.{diverge-Agree, build_chain-Resolved, get-build_chain, choose}
use smaran.Verkle.Trie.Sound.{Resolved, Found, Found-Resolved, resolve_if_hashed-Kept}
use smaran.Verkle.Trie.Updated.{Answers, Resolved-update_at, Answers-parent}

module _ (pc : PointCodec) (resolver : Option Resolver) where
  abbrev Node : Type 0
  Node = VerkleNode pc.crypto.Point

  -- A leaf with one value answers at its key only.
  get_leaf-leaf_with :
      (key value k : List ℕ)
      → length key ≡ 32
      → length k ≡ 32
      → get_leaf (leaf_with pc resolver key value) k
        ≡ (if bytes_eq key k then ok (to_value value) else key_not_found)
  unfolding new_leaf_node
  get_leaf-leaf_with key value k a b =
      let l = new_leaf_node pc.crypto (stem_of key) in
      let nothing : get_leaf l k ≡ key_not_found = unfold get_leaf in ground arith in
      get_leaf-set_value l key k (some (to_value value)) a b refl ∙ rw nothing refl

  -- Both leaves together answer as the existing one, but for the key.
  choose-leaf_with :
      (l : LeafNode pc.crypto.Point) (key value k : List ℕ)
      → length key ≡ 32
      → length k ≡ 32
      → l.stem ≢ stem_of key
      → choose pc resolver l (leaf_with pc resolver key value) k
        ≡ (if bytes_eq key k then ok (to_value value) else get_leaf l k)
  unfolding set_value new_leaf_node
  choose-leaf_with l key value k a b ne = elim (Bool-cases (bytes_eq (stem_of key) (stem_of k))) [
    | inl same ↦
        let stems = (bytes_eq_iff (stem_of key) (stem_of k)).0 same in
        let apart : bytes_eq l.stem (stem_of k) ≡ false =
          elim (Bool-cases (bytes_eq l.stem (stem_of k))) [
            | inl e ↦ absurd (ne ((bytes_eq_iff l.stem (stem_of k)).0 e ∙ sym stems))
            | inr e ↦ e
          ] in
        rw (same, get_leaf-other l k apart) (get_leaf-leaf_with key value k a b)
    | inr other ↦
        let apart : bytes_eq key k ≡ false = elim (Bool-cases (bytes_eq key k)) [
          | inl e ↦ absurd (
              ground (
                arith,
                other,
                bytes_eq_iff (stem_of key) (stem_of k),
                ap (λ (s : List ℕ). stem_of s) ((bytes_eq_iff key k).0 e),
              ))
          | inr e ↦ e
        ] in
        rw (other, apart) refl
  ]

  pub split_leaf-build_chain :
      (room s links : ℕ) (l : LeafNode pc.crypto.Point) (key value : List ℕ)
      → room + s ≡ 31
      → links < room
      → diverge room s l.stem (stem_of key) ≡ s + links
      → split_leaf pc resolver l key value s
        ≡ build_chain pc.crypto.infinity links s l (leaf_with pc resolver key value)
  unfolding split_leaf
  split_leaf-build_chain room s links l key value e lt d =
      let rounds : 31 - s ≡ room = omega arith in
      let test = ltb_of_lt (s + links) 31 (omega arith) in
      let cancel : s + links - s ≡ links = omega arith in rw (rounds, d, test, cancel) refl

  -- splitLeaf, below the path of a leaf with another stem than the key.
  split_leaf_lem :
      (room s : ℕ) (path : List ℕ) (l : LeafNode pc.crypto.Point) (key value : List ℕ)
      → room + s ≡ 31
      → s ≡ length path
      → length key ≡ 32
      → take s key ≡ path
      → length l.stem ≡ 31
      → take s l.stem ≡ path
      → l.stem ≢ stem_of key
      → let m' = split_leaf pc resolver l key value s in
        Resolved pc resolver room path m'
        × Answers pc resolver room path (leaf l) m' key (ok (to_value value))
  unfolding set_value new_leaf_node get
  split_leaf_lem room s path l key value e n a at b t ne =
      let size : length (stem_of key) ≡ 31 = omega (arith, length-take 31 key) in
      let at' : take s (stem_of key) ≡ path = take-take s 31 key (omega arith) ∙ at in
      let (links, d, lt, agree) =
        diverge-Agree room s l.stem (stem_of key) e b size (t ∙ sym at') ne in
      let chain = split_leaf-build_chain room s links l key value e lt d in
      let new = leaf_with pc resolver key value in
      (
        rw chain
            (build_chain-Resolved pc resolver room links s path l new e n lt b size t at' agree),
        λ k len below. rw chain (
            get-build_chain pc resolver room links s path k l new e n lt b size t at' agree
            ∙ choose-leaf_with l key value k a len ne),
      )

  -- Below a split the other keys have their answers.
  pub split_leaf-get :
      (room s : ℕ) (l : LeafNode pc.crypto.Point) (key value k : List ℕ)
      → room + s ≡ 31
      → length key ≡ 32
      → length k ≡ 32
      → length l.stem ≡ 31
      → take s l.stem ≡ take s key
      → take s k ≡ take s key
      → l.stem ≢ stem_of key
      → bytes_eq key k ≡ false
      → get pc resolver room (split_leaf pc resolver l key value s) k ≡ get_leaf l k
  unfolding get
  split_leaf-get room s l key value k e a b size at below ne other =
      let n : s ≡ length (take s key) = omega (arith, length-take s key) in
      let answers = (split_leaf_lem room s (take s key) l key value e n a refl size at ne).1 in
      answers k b (rw (sym n) below) ∙ rw other refl

  -- An insert of the key into `m` gives a resolved node with the value at the key.
  abbrev Inserts : ℕ → List ℕ → List ℕ → List ℕ → Node → Answer Node → Type 0
  Inserts room path key value m r =
      (m' : Node) × (r ≡ ok m')
      × Resolved pc resolver room path m'
      × Answers pc resolver room path m m' key (ok (to_value value))

  leaf_with-Resolved :
      (room : ℕ) (path key value : List ℕ)
      → length path < 32
      → length key ≡ 32
      → take (length path) key ≡ path
      → Resolved pc resolver room path (leaf (leaf_with pc resolver key value))
  unfolding Resolved set_value new_leaf_node
  leaf_with-Resolved room path key value lt a at =
      (omega (arith, length-take 31 key), take-take (length path) 31 key (omega arith) ∙ at)

  insert_child_lem :
      (room d : ℕ) (path key value : List ℕ) (deeper : Node → Answer Node)
      → room + (d + 1) ≡ 31
      → d + 1 ≡ length path
      → length key ≡ 32
      → take (d + 1) key ≡ path
      → ((ch : ℕ → Node) (digest : pc.crypto.Point) (hs : ℕ → ℕ) (x : ℕ) (dirty : Bool)
          → Resolved pc resolver room path (internal ch digest hs x dirty)
          → Inserts room path key value
              (internal ch digest hs x dirty)
              (deeper (internal ch digest hs x dirty)))
      → (m : Node) → Found pc resolver (Resolved pc resolver room) path m
      → Inserts room path key value m (insert_child pc resolver deeper m key value d)
  unfolding insert_child get Found Resolved set_value
  insert_child_lem room d path key value deeper e n a at ih empty h = (
    leaf (leaf_with pc resolver key value),
    refl,
    leaf_with-Resolved room path key value (omega arith) a (rw (sym n) at),
    λ k len below. get_leaf-leaf_with key value k a len,
  )
  insert_child_lem room d path key value deeper e n a at ih (leaf l) h =
      let t : take (d + 1) l.stem ≡ path = rw n h.1 in
      elim (Bool-cases (bytes_eq l.stem (stem_of key))) [
        | inl same ↦
            let stems = (bytes_eq_iff l.stem (stem_of key)).0 same in
            (
              leaf (set_value (suffix_of key) (some (to_value value)) l),
              rw same refl,
              h,
              λ k len below. get_leaf-set_value l key k (some (to_value value)) a len stems,
            )
        | inr other ↦
            let ne : l.stem ≢ stem_of key =
              ground (arith, other, bytes_eq_iff l.stem (stem_of key)) in
            let (resolved, answers) =
              split_leaf_lem room (d + 1) path l key value e n a at h.0 t ne in
            (split_leaf pc resolver l key value (d + 1), rw other refl, resolved, answers)
      ]
  insert_child_lem room d path key value deeper e n a at ih (hashed digest q) h = absurd h
  insert_child_lem room d path key value deeper e n a at ih (internal ch digest hs x dirty) h =
      ih ch digest hs x dirty h

  -- Insert on an internal node replaces one child.
  pub insert-Resolved :
      (room : ℕ) (path : List ℕ) (ch : ℕ → Node) (digest : pc.crypto.Point) (hs : ℕ → ℕ) (d : ℕ)
      (dirty : Bool)
      → (key value : List ℕ) → length key ≡ 32
      → take (length path) key ≡ path
      → Resolved pc resolver room path (internal ch digest hs d dirty)
      → (ch' : ℕ → Node) × (insert pc resolver room (internal ch digest hs d dirty) key value
          ≡ ok (internal ch' digest hs d true))
        × Resolved pc resolver room path (internal ch' digest hs d true)
        × Answers pc resolver room path
            (internal ch digest hs d dirty)
            (internal ch' digest hs d true)
            key
            (ok (to_value value))
  unfolding insert Resolved
  insert-Resolved zero path ch digest hs d dirty key value a at h = absurd h
  insert-Resolved (suc room) path ch digest hs d dirty key value a at (n, e, kept) =
      let i = get_or key d 0 in
      let path' = path ++ i ∷ [] in
      let below' = path-step path key (omega arith) a at in
      let below : take (d + 1) key ≡ path' = rw n below' in
      let n' : d + 1 ≡ length path' = omega (arith, length-append path (i ∷ [])) in
      let (m, load, found) = resolve_if_hashed-Kept pc resolver room path' d (ch i) (kept i) in
      let deeper = λ (x : Node). insert pc resolver room x key value in
      let (m', run, resolved, answers) =
        insert_child_lem room d path' key value deeper (omega arith) n' a below
          (λ ch1 digest1 hs1 x1 dirty1 h1.
            let (c, r, s, t) =
              insert-Resolved room path' ch1 digest1 hs1 x1 dirty1 key value a (rw (sym n') below)
                h1 in
            (internal c digest1 hs1 x1 true, r, s, t))
          m found in
      let found' = Found-Resolved pc resolver room path' m' resolved in
      let test = ltb_of_lt d 31 (omega arith) in
      (
        update_at i m' ch,
        rw (test, load key below, run) refl,
        Resolved-update_at pc resolver room path ch digest hs d dirty true i m' (n, e, kept) found',
        Answers-parent pc resolver room path ch digest hs d dirty true m m' key
            (ok (to_value value)) (n, e, kept) found' load answers,
      )
