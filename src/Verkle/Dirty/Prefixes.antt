-- ===== src/Verkle/Dirty/Prefixes.antt =====
-- Only paths that begin a dirty stem are written.
use smaran.Prelude.{
  ℕ, ◌+◌, ◌<◌, ◌≡◌, ◌≢◌, refl, sym, ap, arith, Bool, Bool-cases, inl, inr, Option, some, none,
}
use smaran.Prelude.{List, [], ◌∷◌, ◌++◌, length, length-take, take, get_or, ltb, All}
use smaran.Verkle.{PointCodec, VerkleNode, empty, internal, leaf, hashed, node_commitment}
use smaran.Verkle.Serialize.{serialize}
use smaran.Verkle.Flush.{SerializedNode}
use smaran.Verkle.Dirty.{
  is_seen, add_node, walk_dirty_path, walk_stems, children_of, serialize_dirty_paths,
}

-- None of the nodes has the path.
abbrev pub Lacks : List ℕ → List SerializedNode → Type 0
Lacks q nodes = All (λ node. node.0 ≢ q) nodes

Lacks-append :
    (q : List ℕ) (nodes : List SerializedNode) (node : SerializedNode)
    → Lacks q nodes
    → node.0 ≢ q
    → Lacks q (nodes ++ node ∷ [])
Lacks-append q [] node h ne = (ne, tt)
Lacks-append q (x ∷ nodes) node (p, h) ne = (p, Lacks-append q nodes node h ne)

add_node-Lacks :
    (q path : List ℕ) (bytes : Option (List ℕ)) (nodes : List SerializedNode)
    → path ≢ q
    → Lacks q nodes
    → Lacks q (add_node path bytes nodes)
unfolding add_node
add_node-Lacks q path none nodes ne h = h
add_node-Lacks q path (some bytes) nodes ne h = elim (Bool-cases (is_seen path nodes)) [
  | inl seen ↦ rw seen h
  | inr new ↦ rw new (Lacks-append q nodes (path, bytes) h ne)
]

-- A stem that does not begin with `q` has no prefix that is `q`.
no_prefix :
    (q stem : List ℕ) (d : ℕ) → d < length stem → take (length q) stem ≢ q → take (d + 1) stem ≢ q
no_prefix q stem d lt ne e =
    let size : length q ≡ d + 1 = omega (arith, length-take (d + 1) stem, ap length e) in
    ne (rw size e)

module _ (pc : PointCodec) where
  walk_dirty_path-Lacks :
      (n : VerkleNode pc.crypto.Point) (q stem : List ℕ) (d : ℕ) (nodes : List SerializedNode)
      → take (length q) stem ≢ q
      → Lacks q nodes
      → Lacks q (walk_dirty_path pc n stem d nodes)
  unfolding walk_dirty_path
  walk_dirty_path-Lacks empty q stem d nodes ne h = h
  walk_dirty_path-Lacks (hashed commitment p) q stem d nodes ne h = h
  walk_dirty_path-Lacks (leaf l) q stem d nodes ne h = elim (Bool-cases (ltb d (length stem))) [
    | inl inside ↦
        let lt : d < length stem = ground arith in
        rw inside (
          add_node-Lacks q (take (d + 1) stem) (serialize pc (leaf l)) nodes
            (no_prefix q stem d lt ne) h)
    | inr past ↦ rw past h
  ]
  walk_dirty_path-Lacks (internal ch digest hs x dirty) q stem d nodes ne h =
      elim (Bool-cases (ltb d (length stem))) [
        | inl inside ↦
            let lt : d < length stem = ground arith in
            let path = take (d + 1) stem in
            let bytes = serialize pc (internal ch digest hs x dirty) in
            rw inside (
              walk_dirty_path-Lacks (ch (get_or stem (d + 1) 0)) q stem (d + 1)
                (add_node path bytes nodes) ne
                (add_node-Lacks q path bytes nodes (no_prefix q stem d lt ne) h))
        | inr past ↦ rw past h
      ]

  walk_stems-Lacks :
      (ch : ℕ → VerkleNode pc.crypto.Point) (stems : List (List ℕ)) (q : List ℕ)
      (nodes : List SerializedNode)
      → All (λ stem. take (length q) stem ≢ q) stems
      → Lacks q nodes
      → Lacks q (walk_stems pc ch stems nodes)
  unfolding walk_stems
  walk_stems-Lacks ch [] q nodes hs h = h
  walk_stems-Lacks ch (stem ∷ stems) q nodes (ne, hs) h =
      let first = walk_dirty_path-Lacks (ch (get_or stem 0 0)) q stem 0 nodes ne h in
      walk_stems-Lacks ch stems q _ hs (elim (Bool-cases (ltb 0 (length stem))) [
        | inl some_bytes ↦ rw some_bytes first
        | inr no_bytes ↦ rw no_bytes h
      ])

  -- The dirty paths of a trie with an internal root can be written; a node whose path, other than that of the
  -- root, begins no dirty stem is not among them.
  pub serialize_dirty_paths-Lacks :
      (ch : ℕ → VerkleNode pc.crypto.Point) (digest : pc.crypto.Point) (hs : ℕ → ℕ) (d : ℕ)
      (dirty : Bool)
      → (stems : List (List ℕ)) (q : List ℕ) → q ≢ []
      → All (λ stem. take (length q) stem ≢ q) stems
      → (nodes : List SerializedNode) × (serialize_dirty_paths pc
            (internal ch digest hs d dirty)
            stems
          ≡ some (nodes, pc.point_bytes digest))
        × Lacks q nodes
  unfolding serialize_dirty_paths serialize children_of node_commitment
  serialize_dirty_paths-Lacks ch digest hs d dirty stems q ne h =
      (_, refl, walk_stems-Lacks ch stems q _ h ((λ e. ne (sym e)), tt))
