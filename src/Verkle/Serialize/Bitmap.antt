-- ===== src/Verkle/Serialize/Bitmap.antt =====
-- The bitmap of a serialised node, and the slots that it tells of.
use smaran.Prelude.{ℕ, zero, suc, ◌+◌, ◌*◌, ◌/◌, ◌%◌, ◌^◌, ◌<◌, ◌≤◌, ◌≡◌, refl, sym, ap, ◌∙◌, arith}
use smaran.Prelude.{Bool, true, false, Bool-cases, inl, inr}
use smaran.Prelude.{length, get_or, ltb, ◌==◌, ==_iff, if◌then◌else◌, not}
use smaran.Prelude.{◌++◌, ltb_of_le, length-append, ◌≤◌, List}
use mathlib.Core.Path.{fun_ext}
use smaran.Account.{update_at}
use smaran.Verkle.Serialize.{bit, bitmap_byte, bitmap_from, has_bit}

pub length-bitmap_from :
    (present : ℕ → Bool) (rounds j : ℕ) → length (bitmap_from present rounds j) ≡ rounds
unfolding bitmap_from
length-bitmap_from present zero j = refl
length-bitmap_from present (suc rounds) j = ap suc (length-bitmap_from present rounds (j + 1))

get_or-bitmap_from :
    (present : ℕ → Bool) (rounds j q : ℕ)
    → q < rounds
    → get_or (bitmap_from present rounds j) q 0 ≡ bitmap_byte present (j + q)
unfolding bitmap_from
get_or-bitmap_from present zero j q lt = absurd (omega arith)
get_or-bitmap_from present (suc rounds) j zero lt = ap (bitmap_byte present) (omega arith)
get_or-bitmap_from present (suc rounds) j (suc q) lt =
    get_or-bitmap_from present rounds (j + 1) q (omega arith)
    ∙ ap (bitmap_byte present) (omega arith)

bit_bound : (b : Bool) → bit b < 2
bit_bound true = omega arith
bit_bound false = omega arith

is_bit : (b : Bool) → not (bit b == 0) ≡ b
is_bit true = refl
is_bit false = refl

-- A bit of a sum of bits.
eight_bits :
    (x0 x1 x2 x3 x4 x5 x6 x7 : ℕ)
    → x0 < 2
    → x1 < 2
    → x2 < 2
    → x3 < 2
    → x4 < 2
    → x5 < 2
    → x6 < 2
    → x7 < 2
    → let s = x0 + 2 * x1 + 4 * x2 + 8 * x3 + 16 * x4 + 32 * x5 + 64 * x6 + 128 * x7 in
      (s / 1 % 2 ≡ x0)
      × (s / 2 % 2 ≡ x1)
      × (s / 4 % 2 ≡ x2)
      × (s / 8 % 2 ≡ x3)
      × (s / 16 % 2 ≡ x4)
      × (s / 32 % 2 ≡ x5)
      × (s / 64 % 2 ≡ x6)
      × (s / 128 % 2 ≡ x7)
eight_bits x0 x1 x2 x3 x4 x5 x6 x7 h0 h1 h2 h3 h4 h5 h6 h7 = (
  omega arith,
  omega arith,
  omega arith,
  omega arith,
  omega arith,
  omega arith,
  omega arith,
  omega arith,
)

abbrev slot : (ℕ → Bool) → ℕ → ℕ → ℕ
slot present q b = bit (present (8 * q + b))

bitmap_byte-bits :
    (present : ℕ → Bool) (q : ℕ)
    → let s = bitmap_byte present q in
      (s / 1 % 2 ≡ slot present q 0)
      × (s / 2 % 2 ≡ slot present q 1)
      × (s / 4 % 2 ≡ slot present q 2)
      × (s / 8 % 2 ≡ slot present q 3)
      × (s / 16 % 2 ≡ slot present q 4)
      × (s / 32 % 2 ≡ slot present q 5)
      × (s / 64 % 2 ≡ slot present q 6)
      × (s / 128 % 2 ≡ slot present q 7)
unfolding bitmap_byte
bitmap_byte-bits present q =
    let first : 8 * q + 0 ≡ 8 * q = omega arith in
    let b = λ (i : ℕ). bit_bound (present (8 * q + i)) in
    rw first (
      eight_bits (bit (present (8 * q))) (slot present q 1) (slot present q 2) (slot present q 3)
        (slot present q 4) (slot present q 5) (slot present q 6) (slot present q 7)
        (bit_bound (present (8 * q))) (b 1) (b 2) (b 3) (b 4) (b 5) (b 6) (b 7))

bitmap_byte-bit :
    (present : ℕ → Bool) (q b : ℕ) → b < 8 → bitmap_byte present q / 2 ^ b % 2 ≡ slot present q b
bitmap_byte-bit present q zero h = (bitmap_byte-bits present q).0
bitmap_byte-bit present q (suc zero) h = (bitmap_byte-bits present q).1
bitmap_byte-bit present q (suc (suc zero)) h = (bitmap_byte-bits present q).2
bitmap_byte-bit present q (suc (suc (suc zero))) h = (bitmap_byte-bits present q).3
bitmap_byte-bit present q (suc (suc (suc (suc zero)))) h = (bitmap_byte-bits present q).4
bitmap_byte-bit present q (suc (suc (suc (suc (suc zero))))) h = (bitmap_byte-bits present q).5
bitmap_byte-bit present q (suc (suc (suc (suc (suc (suc zero)))))) h =
    (bitmap_byte-bits present q).6
bitmap_byte-bit present q (suc (suc (suc (suc (suc (suc (suc zero))))))) h =
    (bitmap_byte-bits present q).7
bitmap_byte-bit present q (suc (suc (suc (suc (suc (suc (suc (suc b)))))))) h = absurd (omega arith)

pub has_bit-bitmap_from :
    (present : ℕ → Bool) (i : ℕ) → i < 256 → has_bit (bitmap_from present 32 0) i ≡ present i
unfolding has_bit
has_bit-bitmap_from present i lt =
    let q : i / 8 < 32 = omega arith in
    let whole : 8 * (i / 8) + i % 8 ≡ i = omega arith in
    let byte : get_or (bitmap_from present 32 0) (i / 8) 0 ≡ bitmap_byte present (i / 8) =
      get_or-bitmap_from present 32 0 (i / 8) q ∙ ap (bitmap_byte present) (omega arith) in
    rw (byte, bitmap_byte-bit present (i / 8) (i % 8) (omega arith), whole) (is_bit (present i))

-- The slots from `i` on; those before have the default.
abbrev pub slots_from : {A : Type 0} → A → (ℕ → A) → ℕ → ℕ → A
slots_from d f i j = if ltb j i then d else f j

pub slots_from-array :
    {A : Type 0} (d : A) (f : ℕ → A) → ((j : ℕ) → 256 ≤ j → f j ≡ d) → (λ j. d) ≡ slots_from d f 256
slots_from-array d f h = fun_ext (λ j. elim (Bool-cases (ltb j 256)) [
  | inl e ↦ rw e refl
  | inr e ↦ rw e (sym (h j (ground arith)))
])

-- Where slot `i` has the default, the slots from it on are those from the next.
pub slots_from-skip :
    {A : Type 0} (d : A) (f : ℕ → A) (i : ℕ) → f i ≡ d → slots_from d f (i + 1) ≡ slots_from d f i
slots_from-skip d f i e = fun_ext (λ j. elim (Bool-cases (j == i)) [
  | inl same ↦
      let at = (==_iff j i).0 same in
      let p : ltb j (i + 1) ≡ true = ground arith in
      let q : ltb j i ≡ false = ground arith in rw (p, q, at) (sym e)
  | inr other ↦ let p : ltb j (i + 1) ≡ ltb j i = ground (arith, ==_iff j i) in rw p refl
])

pub slots_from-update_at :
    {A : Type 0} (d : A) (f : ℕ → A) (i : ℕ)
    → update_at i (f i) (slots_from d f (i + 1)) ≡ slots_from d f i
slots_from-update_at d f i = fun_ext (λ j. elim (Bool-cases (j == i)) [
  | inl same ↦
      let at = (==_iff j i).0 same in
      let q : ltb j i ≡ false = ground arith in rw (same, q, at) refl
  | inr other ↦ let p : ltb j (i + 1) ≡ ltb j i = ground (arith, ==_iff j i) in rw (other, p) refl
])

pub slots_from-zero : {A : Type 0} (d : A) (f : ℕ → A) → slots_from d f 0 ≡ f
slots_from-zero d f = fun_ext (λ j. let first : ltb j 0 ≡ false = ground arith in rw first refl)

pub not_shorter :
    {A : Type 0} (xs ys : List A) (n : ℕ) → length xs ≡ n → ltb (length (xs ++ ys)) n ≡ false
not_shorter xs ys n e = ltb_of_le (length (xs ++ ys)) n (omega (arith, length-append xs ys))
