-- ===== src/Verkle/Serialize/Stubs.antt =====
-- An internal node that is written and read again, with stubs for its children.
use smaran.Prelude.{ℕ, zero, suc, ◌+◌, ◌≤◌, ◌≡◌, refl, sym, ap, ◌∙◌, arith}
use smaran.Prelude.{Bool, true, false, some, Bool-cases, inl, inr}
use smaran.Prelude.{
  List, [], ◌∷◌, ◌++◌, length, length-append, take-append, drop, drop-append, drop-past, ltb_of_le,
  not,
}
use mathlib.Core.Path.{fun_ext}
use smaran.Verkle.{PointCodec, VerkleNode, empty, internal, leaf, hashed, node_commitment, is_nil}
use smaran.Verkle.Serialize.{
  bitmap_from, has_bit, children_from, parse_children, stub_hash, serialize,
}
use smaran.Verkle.Serialize.{parse_node, parse_internal_node}
use smaran.Verkle.Serialize.Bitmap.{
  not_shorter, length-bitmap_from, has_bit-bitmap_from, slots_from, slots_from-array,
  slots_from-skip, slots_from-zero, slots_from-update_at,
}
use mathlib.Core.Option

module _ (pc : PointCodec) where
  abbrev Node : Type 0
  Node = VerkleNode pc.crypto.Point

  -- What reading leaves of a child: a stub with its commitment.
  unfoldable pub stub : Node → Node
  stub empty = empty
  stub (internal children commitment hashes depth dirty) = hashed commitment []
  stub (leaf l) = hashed l.commitment []
  stub (hashed commitment path) = hashed commitment []

  stub-not_nil : (n : Node) → is_nil n ≡ false → stub n ≡ hashed (node_commitment pc.crypto n) []
  unfolding stub node_commitment is_nil
  stub-not_nil empty h = cc
  stub-not_nil (internal children commitment hashes depth dirty) h = refl
  stub-not_nil (leaf l) h = refl
  stub-not_nil (hashed commitment path) h = refl

  stub-nil : (n : Node) → is_nil n ≡ true → stub n ≡ empty
  unfolding stub is_nil
  stub-nil empty h = refl
  stub-nil (internal children commitment hashes depth dirty) h = cc
  stub-nil (leaf l) h = cc
  stub-nil (hashed commitment path) h = cc

  children_from-nil :
      (children : ℕ → Node) (rounds i : ℕ)
      → is_nil (children i) ≡ true
      → children_from pc children (suc rounds) i ≡ children_from pc children rounds (i + 1)
  unfolding children_from
  children_from-nil children rounds i e = rw (children_from, e) refl

  children_from-cons :
      (children : ℕ → Node) (rounds i : ℕ)
      → is_nil (children i) ≡ false
      → children_from pc children (suc rounds) i
        ≡ pc.point_bytes (node_commitment pc.crypto (children i))
          ++ children_from pc children rounds (i + 1)
  unfolding children_from node_commitment
  children_from-cons children rounds i e = rw (children_from, e) refl

  parse_children-children_from :
      (children : ℕ → Node) (rounds i : ℕ)
      → rounds + i ≡ 256
      → ((j : ℕ) → 256 ≤ j → is_nil (children j) ≡ true)
      → parse_children pc
          (bitmap_from (λ j. not (is_nil (children j))) 32 0)
          rounds
          i
          (children_from pc children rounds i)
        ≡ some (slots_from empty (λ j. stub (children j)) i)
  unfolding parse_children Option.bind
  parse_children-children_from children zero i e h =
      let at : i ≡ 256 = omega arith in
      rw at (
        ap some (
          slots_from-array empty (λ j. stub (children j)) (λ j lt. stub-nil (children j) (h j lt))))
  parse_children-children_from children (suc rounds) i e h =
      let has = has_bit-bitmap_from (λ j. not (is_nil (children j))) i (omega arith) in
      let rest = parse_children-children_from children rounds (i + 1) (omega arith) h in
      elim (Bool-cases (is_nil (children i))) [
        | inl nothing ↦
            let has' : has_bit (bitmap_from (λ j. not (is_nil (children j))) 32 0) i ≡ false =
              has ∙ rw nothing refl in
            rw (has', children_from-nil children rounds i nothing, rest)
              (ap some
                (slots_from-skip empty (λ j. stub (children j)) i (stub-nil (children i) nothing)))
        | inr there ↦
            let p = node_commitment pc.crypto (children i) in
            let v = pc.point_bytes p in
            let size = pc.length-point_bytes p in
            let bytes = children_from pc children rounds (i + 1) in
            let has' : has_bit (bitmap_from (λ j. not (is_nil (children j))) 32 0) i ≡ true =
              has ∙ rw there refl in
            rw
              (
                has',
                children_from-cons children rounds i there,
                not_shorter v bytes 48 size,
                take-append v bytes 48 size,
                drop-append v bytes 48 size,
                pc.set_bytes-point_bytes p,
                rest,
              )
              (ap some (
                rw (sym (stub-not_nil (children i) there))
                  (slots_from-update_at empty (λ j. stub (children j)) i)))
      ]

  parse_internal_node-append :
      (depth : ℕ) (digest_bytes bitmap rest : List ℕ) (p : pc.crypto.Point) (children : ℕ → Node)
      → length digest_bytes ≡ 48
      → length bitmap ≡ 32
      → pc.set_bytes digest_bytes ≡ some p
      → parse_children pc bitmap 256 0 rest ≡ some children
      → parse_internal_node pc (1 ∷ depth ∷ (digest_bytes ++ (bitmap ++ rest)))
        ≡ some (internal children p (λ i. stub_hash pc (children i)) depth false)
  unfolding parse_internal_node Option.bind
  parse_internal_node-append depth digest_bytes bitmap rest p children b c point slots =
      let tail = digest_bytes ++ (bitmap ++ rest) in
      let long : 80 ≤ length tail =
        omega (arith, length-append digest_bytes (bitmap ++ rest), length-append bitmap rest) in
      let test = ltb_of_le (suc (suc (length tail))) 82 (omega arith) in
      let last : drop 80 tail ≡ rest =
        drop-past digest_bytes (bitmap ++ rest) 80 32 (omega arith)
        ∙ drop-append bitmap rest 32 c in
      rw
        (
          test,
          take-append digest_bytes (bitmap ++ rest) 48 b,
          point,
          drop-append digest_bytes (bitmap ++ rest) 48 b,
          take-append bitmap rest 32 c,
          last,
          slots,
        )
        refl

  stub_hash-stub : (n : Node) → stub_hash pc (stub n) ≡ stub_hash pc n
  unfolding stub stub_hash
  stub_hash-stub empty = refl
  stub_hash-stub (internal children commitment hashes depth dirty) = refl
  stub_hash-stub (leaf l) = refl
  stub_hash-stub (hashed commitment path) = refl

  -- An internal node is read with its commitment and depth, clean, with a stub for each child and the hash of
  -- each child's commitment.
  pub parse_node-serialize-internal :
      (children : ℕ → Node) (commitment : pc.crypto.Point) (hashes : ℕ → ℕ) (depth : ℕ)
      (dirty : Bool)
      → ((j : ℕ) → 256 ≤ j → is_nil (children j) ≡ true)
      → Option.bind (serialize pc (internal children commitment hashes depth dirty)) (parse_node pc)
        ≡ some (
            internal
              (λ j. stub (children j))
              commitment
              (λ j. stub_hash pc (children j))
              depth
              false)
  parse_node-serialize-internal children commitment hashes depth dirty h =
      let present = λ (j : ℕ). not (is_nil (children j)) in
      let stubs =
        parse_children-children_from children 256 0 (omega arith) h
        ∙ ap some (slots_from-zero empty (λ j. stub (children j))) in
      let hash : (λ (j : ℕ). stub_hash pc (stub (children j))) ≡ (λ j. stub_hash pc (children j)) =
        fun_ext (λ j. stub_hash-stub (children j)) in
      let bytes =
        parse_internal_node-append depth (pc.point_bytes commitment) (bitmap_from present 32 0)
          (children_from pc children 256 0) commitment (λ j. stub (children j))
          (pc.length-point_bytes commitment) (length-bitmap_from present 32 0)
          (pc.set_bytes-point_bytes commitment) stubs in
      let read : Option.bind (serialize pc (internal children commitment hashes depth dirty))
            (parse_node pc)
          ≡ some (
              internal (λ j. stub (children j)) commitment (λ j. stub_hash pc (stub (children j)))
                depth false) =
        unfold serialize in unfold parse_node in unfold Option.bind in bytes in
      read
      ∙ ap (λ (hs : ℕ → ℕ). some (internal (λ j. stub (children j)) commitment hs depth false)) hash
