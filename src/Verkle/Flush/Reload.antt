-- ===== src/Verkle/Flush/Reload.antt =====
-- A trie that was written by BatchSerialize and is loaded node by node answers as it did.
use smaran.Prelude.{
  ℕ, zero, suc, ◌+◌, ◌≤◌, ◌<◌, ◌≡◌, refl, sym, ap, ◌∙◌, arith, Option, some, Bool-cases, inl, inr,
  true, false,
}
use smaran.Prelude.{Bool, List, [], ◌∷◌, ◌++◌, length, length-append, take, get_or, All, ltb}
use mathlib.Core.Option
use mathlib.Core.Path.{subst}
use smaran.Verkle.{PointCodec, VerkleNode, empty, internal, leaf, hashed, is_nil}
use smaran.Verkle.Serialize.{serialize, parse_node, slot_hash, stub_hash}
use smaran.Verkle.Serialize.RoundTrip.{IsSlots, parse_node-serialize-leaf}
use smaran.Verkle.Serialize.Stubs.{stub, parse_node-serialize-internal}
use smaran.Verkle.Trie.{Resolver, ok, get, get_leaf, resolve_if_hashed, load, parsed}
use smaran.Verkle.Trie.Keys.{path-step}
use smaran.Verkle.Trie.Sound.{get-step}
use smaran.Verkle.Flush.Nodes.{bind-some, map-some, batch_children-All, batch_children-total}
use smaran.Verkle.Flush.{SerializedNode, batch_children, batch_serialize}

module _ (pc : PointCodec) where
  abbrev Node : Type 0
  Node = VerkleNode pc.crypto.Point

  -- A trie in memory as a whole: no stubs, leaves with a stem of 31 bytes and slots of 32 bytes, and at most the
  -- 31 levels of a stem.
  unfoldable pub Whole : ℕ → List ℕ → Node → Type 0
  Whole room path empty = Unit
  Whole room path (leaf l) = (length l.stem ≡ 31) × IsSlots l.values
  Whole room path (hashed commitment q) = ⊥
  Whole zero path (internal ch digest hs d dirty) = ⊥
  Whole (suc room) path (internal ch digest hs d dirty) =
      (d ≡ length path)
      × (length path + suc room ≡ 31)
      × ((i : ℕ) → 256 ≤ i → is_nil (ch i) ≡ true)
      × ((i : ℕ) → Whole room (path ++ i ∷ []) (ch i))

  -- What is read of the bytes of a node.
  unfoldable pub read : Node → Node
  read empty = empty
  read (leaf l) =
      leaf (record l { cached_slot_hashes = slot_hash pc l.stem l.values; dirty = false })
  read (hashed commitment q) = hashed commitment q
  read (internal ch digest hs d dirty) =
      internal (λ i. stub pc (ch i)) digest (λ i. stub_hash pc (ch i)) d false

  -- The resolver has the bytes of each node under its path.
  abbrev pub Serves : (List ℕ → Option (List ℕ)) → SerializedNode → Type 0
  Serves f node = f node.0 ≡ some node.1

  -- A node whose bytes are served under a path is loaded there.
  load-parsed :
      (f : Resolver) (path bytes : List ℕ) (n m : Node)
      → f path ≡ some bytes
      → serialize pc n ≡ some bytes
      → Option.bind (serialize pc n) (parse_node pc) ≡ some m
      → load pc (some f) (some f) path ≡ ok m
  load-parsed f path bytes n m served written round =
      let parses : parse_node pc bytes ≡ some m =
        sym (rw written (unfold Option.bind in refl)) ∙ round in
      rw (served, parsed, parses) refl

  pub load-internal :
      (f : Resolver) (path : List ℕ) (ch : ℕ → Node) (digest : pc.crypto.Point) (hs : ℕ → ℕ) (d : ℕ)
      (dirty : Bool)
      → (nodes : List SerializedNode) → ((i : ℕ) → 256 ≤ i → is_nil (ch i) ≡ true)
      → batch_serialize pc (internal ch digest hs d dirty) path ≡ some nodes
      → All (Serves f) nodes
      → load pc (some f) (some f) path ≡ ok (read (internal ch digest hs d dirty))
  unfolding batch_serialize
  load-internal f path ch digest hs d dirty nodes array e h =
      let (bytes, written, e') =
        bind-some (serialize pc (internal ch digest hs d dirty)) _ nodes e in
      let (rest, after, made) =
        map-some (batch_children (λ i. batch_serialize pc (ch i) (path ++ i ∷ [])) 256 0) _ nodes
          e' in
      let served = subst (All (Serves f)) (sym made) h in
      load-parsed f path bytes (internal ch digest hs d dirty)
        (read (internal ch digest hs d dirty)) served.0 written
        (unfold read in parse_node-serialize-internal pc ch digest hs d dirty array)

  -- A child that is in memory is loaded, through its stub, as it is read.
  resolve_if_hashed-stub :
      (f : Resolver) (room : ℕ) (path k : List ℕ) (d : ℕ) (n : Node) (nodes : List SerializedNode)
      → take (d + 1) k ≡ path
      → Whole room path n
      → batch_serialize pc n path ≡ some nodes
      → All (Serves f) nodes
      → resolve_if_hashed pc (some f) (stub pc n) k d ≡ ok (read n)
  unfolding batch_serialize resolve_if_hashed stub Whole
  resolve_if_hashed-stub f room path k d empty nodes at w e h = unfold read in refl
  resolve_if_hashed-stub f room path k d (hashed commitment q) nodes at w e h = absurd w
  resolve_if_hashed-stub f room path k d (leaf l) nodes at w e h =
      let (bytes, written, made) = map-some (serialize pc (leaf l)) _ nodes e in
      let served = subst (All (Serves f)) (sym made) h in
      rw at (
        load-parsed f path bytes (leaf l) (read (leaf l)) served.0 written
          (unfold read in parse_node-serialize-leaf pc l w.0 w.1))
  resolve_if_hashed-stub f zero path k d (internal ch digest hs x dirty) nodes at w e h = absurd w
  resolve_if_hashed-stub f (suc room) path k d (internal ch digest hs x dirty) nodes at
        (n, len, array, below) e h =
      rw at (load-internal f path ch digest hs x dirty nodes array e h)

  is_nil-empty : (n : Node) → is_nil n ≡ true → n ≡ empty
  unfolding is_nil
  is_nil-empty empty h = refl
  is_nil-empty (internal ch digest hs d dirty) h = cc
  is_nil-empty (leaf l) h = cc
  is_nil-empty (hashed commitment q) h = cc

  -- A child in memory is no stub.
  resolve_if_hashed-Whole :
      (resolver : Option Resolver) (room : ℕ) (path k : List ℕ) (d : ℕ) (n : Node)
      → Whole room path n
      → resolve_if_hashed pc resolver n k d ≡ ok n
  unfolding resolve_if_hashed Whole
  resolve_if_hashed-Whole resolver room path k d empty w = refl
  resolve_if_hashed-Whole resolver room path k d (leaf l) w = refl
  resolve_if_hashed-Whole resolver room path k d (hashed commitment q) w = absurd w
  resolve_if_hashed-Whole resolver room path k d (internal ch digest hs x dirty) w = refl

  served-child :
      (f : Resolver) (path : List ℕ) (ch : ℕ → Node) (digest : pc.crypto.Point) (hs : ℕ → ℕ) (d : ℕ)
      (dirty : Bool)
      → (nodes : List SerializedNode) (j : ℕ) → j < 256
      → batch_serialize pc (internal ch digest hs d dirty) path ≡ some nodes
      → All (Serves f) nodes
      → (below : List SerializedNode) × (batch_serialize pc (ch j) (path ++ j ∷ []) ≡ some below)
        × All (Serves f) below
  unfolding batch_serialize
  served-child f path ch digest hs d dirty nodes j lt e h =
      let (bytes, written, e') =
        bind-some (serialize pc (internal ch digest hs d dirty)) _ nodes e in
      let (rest, after, made) =
        map-some (batch_children (λ i. batch_serialize pc (ch i) (path ++ i ∷ [])) 256 0) _ nodes
          e' in
      let served = subst (All (Serves f)) (sym made) h in
      batch_children-All (Serves f) (λ i. batch_serialize pc (ch i) (path ++ i ∷ [])) 256 0 j rest
        (omega arith) (omega arith) after served.1

  -- A trie whose nodes are served answers alike in memory and loaded from its root.
  pub get-read :
      (f : Resolver) (resolver : Option Resolver) (room : ℕ) (path k : List ℕ) (n : Node)
      (nodes : List SerializedNode)
      → length k ≡ 32
      → take (length path) k ≡ path
      → Whole room path n
      → batch_serialize pc n path ≡ some nodes
      → All (Serves f) nodes
      → get pc (some f) room (read n) k ≡ get pc resolver room n k
  unfolding Whole read
  get-read f resolver room path k empty nodes len at w e h = unfold get in refl
  get-read f resolver room path k (leaf l) nodes len at w e h =
      unfold get in unfold get_leaf in refl
  get-read f resolver room path k (hashed commitment q) nodes len at w e h = absurd w
  get-read f resolver zero path k (internal ch digest hs d dirty) nodes len at w e h = absurd w
  get-read f resolver (suc room) path k (internal ch digest hs d dirty) nodes len at
        (n, size, array, below) e h =
      let c = get_or k d 0 in
      let here : take d k ≡ path = rw n at in
      let below' = path-step path k (omega arith) len at in
      let on : take (d + 1) k ≡ path ++ c ∷ [] = rw n below' in
      let longer : length (path ++ c ∷ []) ≡ d + 1 = omega (arith, length-append path (c ∷ [])) in
      let stubs = λ (i : ℕ). stub pc (ch i) in
      let hashes = λ (i : ℕ). stub_hash pc (ch i) in
      let new = get-step pc (some f) room d stubs digest hashes false k in
      let old = get-step pc resolver room d ch digest hs dirty k in
      elim (Bool-cases (ltb c 256)) [
        | inl inside ↦
            let lt : c < 256 = ground arith in
            let (served, es, hc) = served-child f path ch digest hs d dirty nodes c lt e h in
            new (read (ch c)) (omega arith)
              (resolve_if_hashed-stub f room (path ++ c ∷ []) k d (ch c) served on (below c) es hc)
            ∙ (get-read f resolver room (path ++ c ∷ []) k (ch c) served len (rw longer on)
                  (below c) es hc
                ∙ sym (
                    old (ch c) (omega arith) (
                      resolve_if_hashed-Whole resolver room (path ++ c ∷ []) k d (ch c) (below c))))
        | inr outside ↦
            let past : 256 ≤ c = ground arith in
            let none_there = is_nil-empty (ch c) (array c past) in
            new empty (omega arith) (
              ap (λ (m : Node). resolve_if_hashed pc (some f) (stub pc m) k d) none_there
              ∙ unfold stub in unfold resolve_if_hashed in refl)
            ∙ (unfold get in
                refl
                ∙ sym (
                    old empty (omega arith) (
                      ap (λ (m : Node). resolve_if_hashed pc resolver m k d) none_there
                      ∙ unfold resolve_if_hashed in refl)))
      ]

  -- BatchSerialize succeeds on a trie in memory.
  pub batch_serialize-total :
      (room : ℕ) (path : List ℕ) (n : Node)
      → Whole room path n
      → (nodes : List SerializedNode) × (batch_serialize pc n path ≡ some nodes)
  unfolding batch_serialize Whole serialize Option.bind
  batch_serialize-total room path empty w = ([], refl)
  batch_serialize-total room path (leaf l) w = (_, refl)
  batch_serialize-total room path (hashed commitment q) w = absurd w
  batch_serialize-total zero path (internal ch digest hs d dirty) w = absurd w
  batch_serialize-total (suc room) path (internal ch digest hs d dirty) (n, size, array, below) =
      let (rest, e) =
        batch_children-total (λ i. batch_serialize pc (ch i) (path ++ i ∷ [])) 256 0
          (λ i. batch_serialize-total room (path ++ i ∷ []) (ch i) (below i)) in
      (_, ap (Option.map _) e)
