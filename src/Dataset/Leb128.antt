-- ===== src/Dataset/Leb128.antt =====
-- The variable-length numbers of encoding/binary, written out, as one choice of the parameter.
use smaran.Prelude.{ℕ, zero, suc, ◌+◌, ◌-◌, ◌*◌, ◌/◌, ◌%◌, ◌^◌, ◌<◌, ◌≡◌, refl, arith}
use smaran.Prelude.{List, [], ◌∷◌, ◌++◌, length, Option, some, none, ltb, if◌then◌else◌}
use smaran.Prelude.{Bool-cases, inl, inr, false}
use native.Mathlib.Nat.{pow-suc}
use smaran.Dataset.{Varint}

abbrev put_loop : ℕ → ℕ → List ℕ
put_loop zero n = n ∷ []
put_loop (suc k) n =
    let rest = put_loop k (n / 128) in if ltb n 128 then n ∷ [] else (n % 128 + 128) ∷ rest

abbrev step : ℕ → Option (ℕ × ℕ) → Option (ℕ × ℕ)
step b none = none
step b (some (n, taken)) = some (b - 128 + 128 * n, suc taken)

abbrev get_loop : List ℕ → Option (ℕ × ℕ)
get_loop [] = none
get_loop (b ∷ bs) = let rest = get_loop bs in if ltb b 128 then some (b, 1) else step b rest

pub get-put_loop :
    (k n : ℕ) (rest : List ℕ)
    → n < 128 ^ suc k
    → get_loop (put_loop k n ++ rest) ≡ some (n, length (put_loop k n))
get-put_loop zero n rest h = ground arith
get-put_loop (suc k) n rest h =
    let less : n / 128 < 128 ^ suc k = omega (arith, (rw (pow-suc 128 (suc k)) at h)) in
    elim (Bool-cases (ltb n 128)) [
      | inl e ↦ rw (e, e) refl
      | inr e ↦
          let top : ltb (n % 128 + 128) 128 ≡ false = ground arith in
          let back : n % 128 + 128 - 128 + 128 * (n / 128) ≡ n = omega arith in
          rw (e, top, get-put_loop k (n / 128) rest less, back) refl
    ]

abbrev pub leb128 : Varint
leb128 = record {
  put_uvarint = put_loop 9;
  uvarint = get_loop;
  uvarint-put_uvarint = λ n rest h. get-put_loop 9 n rest (omega arith);
}
