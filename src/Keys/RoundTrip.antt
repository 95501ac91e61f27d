-- ===== src/Keys/RoundTrip.antt =====
-- A balance comes back from its form in the tree.
use smaran.Prelude.{ℕ, ◌+◌, ◌-◌, ◌^◌, ◌<◌, ◌≤◌, ◌≡◌, refl, sym, ap, ◌∙◌, arith, false, leb, ◌==◌}
use smaran.Prelude.{List, [], ◌++◌, some, length, take, replicate, Bool-cases, inl, inr}
use smaran.Prelude.{length-append, length-replicate, take-append, drop-append, take-length}
use mathlib.Core.List.{append_assoc, append-nil}
use smaran.Bytes.{be_value, big_bytes, blit}
use smaran.Bytes.Laws.{
  be_value-zeros, be_value-big_bytes, length-big_bytes, blit-append, replicate-append,
}
use smaran.Keys.{pos, packed, pack_basic_data, unpack_balance}

be_value_nil : be_value [] ≡ 0
unfolding be_value
be_value_nil = refl

-- Bytes put at the end of 32 zeros.
padded :
    (bs : List ℕ)
    → length bs ≤ 16
    → blit (32 - length bs) bs (replicate 32 0)
      ≡ replicate 16 0 ++ (replicate (16 - length bs) 0 ++ bs)
padded bs short =
    let n = length bs in
    let all_of : 32 ≡ 32 - n + n = omega arith in
    let front_of : 32 - n ≡ 16 + (16 - n) = omega arith in
    let whole : replicate 32 0 ≡ replicate (32 - n) 0 ++ (replicate n 0 ++ []) =
      ap (λ (k : ℕ). replicate k 0) all_of
      ∙ replicate-append (32 - n) n 0
      ∙ ap (◌++◌ (replicate (32 - n) 0)) (sym (append-nil (replicate n 0))) in
    let front : replicate (32 - n) 0 ≡ replicate 16 0 ++ replicate (16 - n) 0 =
      ap (λ (k : ℕ). replicate k 0) front_of ∙ replicate-append 16 (16 - n) 0 in
    ap (blit (32 - n) bs) whole
    ∙ blit-append (32 - n) bs (replicate (32 - n) 0) (replicate n 0) []
        (length-replicate (32 - n) 0) (length-replicate n 0)
    ∙ ap (◌++◌ (replicate (32 - n) 0)) (append-nil bs)
    ∙ ap (λ (l : List ℕ). l ++ bs) front
    ∙ append_assoc (replicate 16 0) (replicate (16 - n) 0) bs

-- A balance below 2 ^ 128 is packed, into 32 bytes of which the first 16 are zero, and comes back from
-- them.
pub unpack-pack_basic_data :
    (n : ℕ)
    → n < 2 ^ 128
    → (val : List ℕ) × (pack_basic_data (some (pos n)) ≡ packed val)
      × (length val ≡ 32)
      × (take 16 val ≡ replicate 16 0)
      × (unpack_balance val ≡ n)
unfolding pack_basic_data unpack_balance
unpack-pack_basic_data n fits = elim (Bool-cases (n == 0)) [
  | inl e ↦
      let none_left : n ≡ 0 = ground arith in
      (replicate 32 0, rw e refl, refl, refl, be_value-zeros 16 [] ∙ be_value_nil ∙ sym none_left)
  | inr e ↦
      let bs = big_bytes n in
      let short : length bs ≤ 16 = length-big_bytes n 16 fits in
      let small : leb (2 ^ 128) n ≡ false = ground arith in
      let k : ℕ = 16 - length bs in
      let size : length (replicate k 0 ++ bs) ≡ 16 =
        omega (arith, length-append (replicate k 0) bs, length-replicate {A = ℕ} k 0) in
      let back : take 16 (replicate k 0 ++ bs) ≡ replicate k 0 ++ bs =
        ap (λ (m : ℕ). take m (replicate k 0 ++ bs)) (sym size)
        ∙ take-length (replicate k 0 ++ bs) in
      (
        replicate 16 0 ++ (replicate k 0 ++ bs),
        rw (e, small, padded bs short) refl,
        omega (arith, length-append (replicate 16 0) (replicate k 0 ++ bs), size),
        take-append (replicate 16 0) (replicate k 0 ++ bs) 16 refl,
        rw (drop-append (replicate 16 0) (replicate k 0 ++ bs) 16 refl, back)
            (be_value-zeros k bs ∙ be_value-big_bytes n),
      )
]
