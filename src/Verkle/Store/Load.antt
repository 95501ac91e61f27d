-- ===== src/Verkle/Store/Load.antt =====
-- A trie that is saved in full and loaded from the database.
use smaran.Prelude.{ℕ, zero, suc, ◌+◌, ◌^◌, ◌<◌, ◌≤◌, ◌≡◌, refl, ap, ◌∙◌, arith, Bool, true}
use smaran.Prelude.{List, [], ◌∷◌, ◌++◌, length, length-append, All, Option, some, none, value_or}
use mathlib.Core.Option
use mathlib.Core.Path.{subst}
use smaran.Verkle.{is_nil, PointCodec, VerkleNode, empty, internal, leaf, hashed}
use smaran.Verkle.Serialize.{serialize, parse_node}
use smaran.Verkle.Trie.{Resolver, get, load, parsed, Answer, ok, failed}
use smaran.Verkle.Flush.{SerializedNode, batch_serialize, batch_children}
use smaran.Verkle.Flush.Nodes.{bind-some, map-some}
use smaran.Verkle.Flush.Reload.{load-internal, get-read, read, batch_serialize-total, Whole, Serves}
use smaran.Verkle.Store.{
  OrderedStore, save_nodes, versioned_node_resolver, load_tree, as_internal, resolve_node_at_block,
}
use smaran.Verkle.Store.Latest.{IsVersioned, resolve_node_at_block-stored}

All-append : {A : Type 0} (P : A → Type 0) (xs ys : List A) → All P xs → All P ys → All P (xs ++ ys)
All-append P [] ys h k = k
All-append P (x ∷ xs) ys (p, h) k = (p, All-append P xs ys h k)

batch_children-each :
    (P : SerializedNode → Type 0) (child : ℕ → Option (List SerializedNode)) (rounds i : ℕ)
    (all : List SerializedNode)
    → ((j : ℕ) (nodes : List SerializedNode) → child j ≡ some nodes → All P nodes)
    → batch_children child rounds i ≡ some all
    → All P all
unfolding batch_children
batch_children-each P child zero i all h e = subst (All P) (ap (value_or []) e) tt
batch_children-each P child (suc rounds) i all h e =
    let (nodes, here, e') = bind-some (child i) _ all e in
    let (rest, after, joined) = map-some (batch_children child rounds (i + 1)) _ all e' in
    subst (All P) joined (
      All-append P nodes rest (h i nodes here)
        (batch_children-each P child rounds (i + 1) rest h after))

abbrev pub IsShort : SerializedNode → Type 0
IsShort node = length node.0 < 256

module _ (pc : PointCodec) where
  -- The paths that BatchSerialize writes have at most 31 bytes.
  batch_serialize-IsShort :
      (room : ℕ) (path : List ℕ) (n : VerkleNode pc.crypto.Point) (nodes : List SerializedNode)
      → length path + room ≡ 31
      → Whole pc room path n
      → batch_serialize pc n path ≡ some nodes
      → All IsShort nodes
  unfolding batch_serialize Whole
  batch_serialize-IsShort room path empty nodes size w e =
      subst (All IsShort) (ap (value_or []) e) tt
  batch_serialize-IsShort room path (hashed commitment q) nodes size w e = absurd w
  batch_serialize-IsShort room path (leaf l) nodes size w e =
      let (bytes, written, made) = map-some (serialize pc (leaf l)) _ nodes e in
      subst (All IsShort) made (omega arith, tt)
  batch_serialize-IsShort zero path (internal ch digest hs d dirty) nodes size w e = absurd w
  batch_serialize-IsShort (suc room) path (internal ch digest hs d dirty) nodes size
        (n, len, array, below) e =
      let (bytes, written, e') =
        bind-some (serialize pc (internal ch digest hs d dirty)) _ nodes e in
      let (rest, after, made) =
        map-some (batch_children (λ i. batch_serialize pc (ch i) (path ++ i ∷ [])) 256 0) _ nodes
          e' in
      let each =
        λ (j : ℕ) (some_nodes : List SerializedNode)
            (ej : batch_serialize pc (ch j) (path ++ j ∷ []) ≡ some some_nodes).
          batch_serialize-IsShort room (path ++ j ∷ []) (ch j) some_nodes
            (omega (arith, length-append path (j ∷ []))) (below j) ej in
      subst (All IsShort) made (
        omega arith,
        batch_children-each IsShort (λ i. batch_serialize pc (ch i) (path ++ i ∷ [])) 256 0 rest
            each after,
      )

module _ (pc : PointCodec) (s : OrderedStore) (db : s.Db) where
  -- A resolver of the block that was saved serves each node.
  save_nodes-served :
      (nodes : List SerializedNode) (block : ℕ)
      → IsVersioned s db
      → block + 1 < 256 ^ 8
      → All IsShort nodes
      → All (λ w. s.fetch db w.0 ≡ some w.1) (save_nodes nodes block)
      → All (Serves pc (versioned_node_resolver s db block)) nodes
  unfolding save_nodes versioned_node_resolver
  save_nodes-served [] block versioned fits short h = tt
  save_nodes-served ((path, bytes) ∷ nodes) block versioned fits (lt, short) (stored, h) = (
    resolve_node_at_block-stored s db path bytes block block versioned lt (omega arith) fits stored
        (λ c above below. absurd (omega arith)),
    save_nodes-served nodes block versioned fits short h,
  )

  bind-node :
      (q : Option (VerkleNode pc.crypto.Point)) (m : VerkleNode pc.crypto.Point)
      → as_internal m ≡ some m
      → ◌≡◌ {A = Answer (VerkleNode pc.crypto.Point)}
          (elim q [ none ↦ failed | some n ↦ ok n ])
          (ok m)
      → Option.bind q as_internal ≡ some m
  unfolding Option.bind
  bind-node none m e h = absurd (cc)
  bind-node (some n) m e h = let same : n ≡ m = cc in ap as_internal same ∙ e

  bind-parsed :
      (o : Option (List ℕ)) (m : VerkleNode pc.crypto.Point)
      → as_internal m ≡ some m
      → parsed pc (some (versioned_node_resolver s db 0)) o ≡ ok m
      → Option.bind o (λ bytes. Option.bind (parse_node pc bytes) as_internal) ≡ some m
  unfolding Option.bind
  bind-parsed none m e h = absurd (cc)
  bind-parsed (some bytes) m e h = bind-node (parse_node pc bytes) m e h

  load_tree-load :
      (block : ℕ) (m : VerkleNode pc.crypto.Point)
      → as_internal m ≡ some m
      → load pc
          (some (versioned_node_resolver s db block))
          (some (versioned_node_resolver s db block))
          []
        ≡ ok m
      → load_tree pc s db block ≡ some m
  unfolding load_tree versioned_node_resolver
  load_tree-load block m e h = bind-parsed (resolve_node_at_block s db [] block) m e h

  -- A trie in memory that SaveNodes has written in full for a block is loaded for that block, and Get of a key
  -- of 32 bytes on what was loaded, with the resolver of the block, answers as on the trie in memory.
  pub get-load_tree :
      (block : ℕ) (resolver : Option Resolver) (k : List ℕ) (ch : ℕ → VerkleNode pc.crypto.Point)
      → (digest : pc.crypto.Point) (hs : ℕ → ℕ) (d : ℕ) (dirty : Bool) → length k ≡ 32
      → Whole pc 31 [] (internal ch digest hs d dirty)
      → IsVersioned s db
      → block + 1 < 256 ^ 8
      → All
          (λ w. s.fetch db w.0 ≡ some w.1)
          (save_nodes (value_or [] (batch_serialize pc (internal ch digest hs d dirty) [])) block)
      → (m : VerkleNode pc.crypto.Point) × (load_tree pc s db block ≡ some m)
        × (get pc (some (versioned_node_resolver s db block)) 31 m k
            ≡ get pc resolver 31 (internal ch digest hs d dirty) k)
  unfolding as_internal read
  get-load_tree block resolver k ch digest hs d dirty len w versioned fits stored =
      let n = internal ch digest hs d dirty in
      let nodes = value_or [] (batch_serialize pc n []) in
      let f = versioned_node_resolver s db block in
      let (all, e) = batch_serialize-total pc 31 [] n w in
      let written : batch_serialize pc n [] ≡ some nodes = rw e refl in
      let short = batch_serialize-IsShort pc 31 [] n nodes refl w written in
      let served = save_nodes-served nodes block versioned fits short stored in
      let array : (i : ℕ) → 256 ≤ i → is_nil (ch i) ≡ true = unfold Whole in w.2 in
      let loaded = load-internal pc f [] ch digest hs d dirty nodes array written served in
      (
        read pc n,
        load_tree-load block (read pc n) refl loaded,
        get-read pc f resolver 31 [] k n nodes len refl w written served,
      )
