-- ===== src/Verkle/Serialize/RoundTrip.antt =====
-- A leaf that is written and read again.
use smaran.Prelude.{ℕ, zero, suc, ◌+◌, ◌≤◌, ◌≡◌, refl, sym, ap, ◌∙◌, arith}
use smaran.Prelude.{true, false, Option, some, none, Option-cases, inl, inr}
use smaran.Prelude.{
  List, ◌∷◌, ◌++◌, length, length-append, take-append, drop, drop-append, drop-past, ltb_of_le,
}
use smaran.Verkle.{PointCodec, LeafNode, leaf}
use smaran.Verkle.Serialize.{bitmap_from, has_bit, is_some, values_from, parse_values, serialize}
use smaran.Verkle.Serialize.{slot_hash, parse_node, parse_leaf_node}
use smaran.Verkle.Serialize.Bitmap.{
  not_shorter, length-bitmap_from, has_bit-bitmap_from, slots_from, slots_from-array,
  slots_from-skip, slots_from-zero, slots_from-update_at,
}
use mathlib.Core.Option

-- What the 256 slots of a leaf are: 32 bytes each, and nothing beyond.
abbrev pub IsSlots : (ℕ → Option (List ℕ)) → Type 0
IsSlots values =
    ((i : ℕ) (v : List ℕ) → values i ≡ some v → length v ≡ 32)
    × ((i : ℕ) → 256 ≤ i → values i ≡ none)

values_from-none :
    (values : ℕ → Option (List ℕ)) (rounds i : ℕ)
    → values i ≡ none
    → values_from values (suc rounds) i ≡ values_from values rounds (i + 1)
unfolding values_from
values_from-none values rounds i e = rw (values_from, e) refl

values_from-some :
    (values : ℕ → Option (List ℕ)) (rounds i : ℕ) (v : List ℕ)
    → values i ≡ some v
    → values_from values (suc rounds) i ≡ v ++ values_from values rounds (i + 1)
unfolding values_from
values_from-some values rounds i v e = rw (values_from, e) refl

parse_values-values_from :
    (values : ℕ → Option (List ℕ)) (rounds i : ℕ)
    → rounds + i ≡ 256
    → IsSlots values
    → parse_values
        (bitmap_from (λ j. is_some (values j)) 32 0)
        rounds
        i
        (values_from values rounds i)
      ≡ some (slots_from none values i)
unfolding parse_values
parse_values-values_from values zero i e h =
    let at : i ≡ 256 = omega arith in rw at (ap some (slots_from-array none values h.1))
parse_values-values_from values (suc rounds) i e h =
    let has = has_bit-bitmap_from (λ j. is_some (values j)) i (omega arith) in
    let rest = parse_values-values_from values rounds (i + 1) (omega arith) h in
    elim (Option-cases (values i)) [
      | inl nothing ↦
          let has' : has_bit (bitmap_from (λ j. is_some (values j)) 32 0) i ≡ false =
            has ∙ unfold is_some in rw nothing refl in
          rw (has', values_from-none values rounds i nothing, rest)
            (ap some (slots_from-skip none values i nothing))
      | inr (v, there) ↦
          let size = h.0 i v there in
          let bytes = values_from values rounds (i + 1) in
          let has' : has_bit (bitmap_from (λ j. is_some (values j)) 32 0) i ≡ true =
            has ∙ unfold is_some in rw there refl in
          rw
            (
              has',
              values_from-some values rounds i v there,
              not_shorter v bytes 32 size,
              take-append v bytes 32 size,
              drop-append v bytes 32 size,
              rest,
            )
            (ap some (rw (sym there) (slots_from-update_at none values i)))
    ]

module _ (pc : PointCodec) where
  parse_leaf_node-append :
      (stem digest_bytes bitmap rest : List ℕ) (p : pc.crypto.Point) (values : ℕ → Option (List ℕ))
      → length stem ≡ 31
      → length digest_bytes ≡ 48
      → length bitmap ≡ 32
      → pc.set_bytes digest_bytes ≡ some p
      → parse_values bitmap 256 0 rest ≡ some values
      → parse_leaf_node pc (2 ∷ (stem ++ (digest_bytes ++ (bitmap ++ rest))))
        ≡ some (
            leaf (record {
              stem = stem;
              commitment = p;
              values = values;
              cached_slot_hashes = slot_hash pc stem values;
              dirty = false;
            }))
  unfolding parse_leaf_node Option.bind
  parse_leaf_node-append stem digest_bytes bitmap rest p values a b c point slots =
      let tail = digest_bytes ++ (bitmap ++ rest) in
      let long : 111 ≤ length (stem ++ tail) = omega (
        arith,
        length-append stem tail,
        length-append digest_bytes (bitmap ++ rest),
        length-append bitmap rest,
      ) in
      let test = ltb_of_le (suc (length (stem ++ tail))) 112 (omega arith) in
      let after : drop 79 (stem ++ tail) ≡ bitmap ++ rest =
        drop-past stem tail 79 48 (omega arith) ∙ drop-append digest_bytes (bitmap ++ rest) 48 b in
      let last : drop 111 (stem ++ tail) ≡ rest =
        drop-past stem tail 111 80 (omega arith)
        ∙ (drop-past digest_bytes (bitmap ++ rest) 80 32 (omega arith)
            ∙ drop-append bitmap rest 32 c) in
      rw
        (
          test,
          take-append stem tail 31 a,
          drop-append stem tail 31 a,
          take-append digest_bytes (bitmap ++ rest) 48 b,
          point,
          after,
          take-append bitmap rest 32 c,
          last,
          slots,
        )
        refl

  -- A leaf with a stem of 31 bytes and values of 32 bytes is read as it was written, with the hashes of its slots
  -- and clean.
  pub parse_node-serialize-leaf :
      (l : LeafNode pc.crypto.Point)
      → length l.stem ≡ 31
      → IsSlots l.values
      → Option.bind (serialize pc (leaf l)) (parse_node pc)
        ≡ some
            (leaf (record l { cached_slot_hashes = slot_hash pc l.stem l.values; dirty = false }))
  parse_node-serialize-leaf l e h =
      let p = l.commitment in
      let values =
        parse_values-values_from l.values 256 0 (omega arith) h
        ∙ ap some (slots_from-zero none l.values) in
      let bytes =
        parse_leaf_node-append l.stem (pc.point_bytes p)
          (bitmap_from (λ i. is_some (l.values i)) 32 0) (values_from l.values 256 0) p l.values e
          (pc.length-point_bytes p) (length-bitmap_from (λ i. is_some (l.values i)) 32 0)
          (pc.set_bytes-point_bytes p) values in
      unfold serialize in unfold parse_node in unfold Option.bind in bytes
