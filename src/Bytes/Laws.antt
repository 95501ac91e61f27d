-- ===== src/Bytes/Laws.antt =====
-- Numbers come back from their bytes.
use smaran.Prelude.{ℕ, zero, suc, ◌+◌, ◌*◌, ◌/◌, ◌%◌, ◌^◌, ◌≤◌, ◌<◌, ◌≡◌, refl, ap, ◌∙◌, arith}
use smaran.Prelude.{List, [], ◌∷◌, ◌++◌, length, replicate, ◌==◌, drop, length-append}
use smaran.Prelude.{take-append, drop-append}
use smaran.Prelude.{Bool-cases, inl, inr}
use mathlib.Core.List.{foldl, append_assoc}
use native.Mathlib.Nat.{
  pow-suc, one-le-pow, div-add-mod', mod-lt, mod-eq_of_lt, mul-add-mod_self_right,
}
use native.Mathlib.Nat.{mul-le-mul_right}
use smaran.Bytes.{be_bytes, be_value, big_bytes_loop, big_bytes, blit, le_bytes, le_value}

abbrev value_from : ℕ → List ℕ → ℕ
value_from = foldl (λ acc b. acc * 256 + b)

-- The lowest `p * 256` of a number, from its digit above `p` and what is below.
mod_split : (p n : ℕ) → 0 < p → n % (p * 256) ≡ n / p % 256 * p + n % p
mod_split p n h =
    let low = div-add-mod' n p in
    let digit : n / p / 256 * 256 + n / p % 256 ≡ n / p = omega arith in
    let below : n / p % 256 < 256 = omega arith in
    let whole : n ≡ n / p / 256 * (p * 256) + (n / p % 256 * p + n % p) =
      omega (arith, low, ap (λ (t : ℕ). t * p) digit) in
    let small : n / p % 256 * p + n % p < p * 256 =
      omega (arith, mod-lt n h, mul-le-mul_right {m = n / p % 256 + 1} {n = 256} p (omega arith)) in
    ap (λ (t : ℕ). t % (p * 256)) whole
    ∙ mul-add-mod_self_right (n / p / 256) (p * 256) (n / p % 256 * p + n % p)
    ∙ mod-eq_of_lt small

value_from-be_bytes : (k acc n : ℕ) → value_from acc (be_bytes k n) ≡ acc * 256 ^ k + n % 256 ^ k
unfolding be_bytes
value_from-be_bytes zero acc n = omega arith
value_from-be_bytes (suc k) acc n =
    value_from-be_bytes k (acc * 256 + n / 256 ^ k % 256) n
    ∙ rw (pow-suc 256 k) (omega (arith, mod_split (256 ^ k) n (one-le-pow k 256 (omega arith))))

pub be_value-be_bytes : (k n : ℕ) → n < 256 ^ k → be_value (be_bytes k n) ≡ n
unfolding be_value
be_value-be_bytes k n h = value_from-be_bytes k 0 n ∙ rw (mod-eq_of_lt h) (omega arith)

pub length-be_bytes : (k n : ℕ) → length (be_bytes k n) ≡ k
unfolding be_bytes
length-be_bytes zero n = refl
length-be_bytes (suc k) n = ap suc (length-be_bytes k n)

pub be_value-zeros : (k : ℕ) (bs : List ℕ) → be_value (replicate k 0 ++ bs) ≡ be_value bs
unfolding be_value
be_value-zeros zero bs = refl
be_value-zeros (suc k) bs = be_value-zeros k bs

-- The loop puts the bytes of `n` before `acc`.
value-big_bytes_loop :
    (fuel n : ℕ) (acc : List ℕ) → n ≤ fuel → be_value (big_bytes_loop fuel n acc) ≡ value_from n acc
unfolding big_bytes_loop be_value
value-big_bytes_loop zero n acc h = let e : n ≡ 0 = omega arith in rw e
value-big_bytes_loop (suc fuel) n acc h = elim (Bool-cases (n == 0)) [
  | inl e ↦ let z : n ≡ 0 = ground arith in rw (e, z)
  | inr e ↦
      let digits : n / 256 * 256 + n % 256 ≡ n = omega arith in
      rw e (
        value-big_bytes_loop fuel (n / 256) (n % 256 ∷ acc) (ground arith)
        ∙ ap (λ (t : ℕ). value_from t acc) digits)
]

pub be_value-big_bytes : (n : ℕ) → be_value (big_bytes n) ≡ n
unfolding big_bytes
be_value-big_bytes n = value-big_bytes_loop n n [] (omega arith)

length-big_bytes_loop :
    (fuel n k : ℕ) (acc : List ℕ)
    → n < 256 ^ k
    → length (big_bytes_loop fuel n acc) ≤ k + length acc
unfolding big_bytes_loop
length-big_bytes_loop zero n k acc h = omega arith
length-big_bytes_loop (suc fuel) n zero acc h = ground arith
length-big_bytes_loop (suc fuel) n (suc k) acc h =
    let less : n / 256 < 256 ^ k = omega (arith, (rw (pow-suc 256 k) at h)) in
    ground (arith, length-big_bytes_loop fuel (n / 256) k (n % 256 ∷ acc) less)

pub length-big_bytes : (n k : ℕ) → n < 256 ^ k → length (big_bytes n) ≤ k
unfolding big_bytes
length-big_bytes n k h = omega (arith, length-big_bytes_loop n n k [] h)

-- A write in the middle of a string replaces the part that it covers.
pub blit-append :
    (offset : ℕ) (bs xs ys zs : List ℕ)
    → length xs ≡ offset
    → length ys ≡ length bs
    → blit offset bs (xs ++ (ys ++ zs)) ≡ xs ++ (bs ++ zs)
unfolding blit
blit-append offset bs xs ys zs hx hy =
    let joined : drop (offset + length bs) ((xs ++ ys) ++ zs) ≡ zs =
      drop-append (xs ++ ys) zs (offset + length bs) (omega (arith, length-append xs ys)) in
    rw (take-append xs (ys ++ zs) offset hx, ← append_assoc xs ys zs, joined)

pub replicate-append : (m n : ℕ) (b : ℕ) → replicate (m + n) b ≡ replicate m b ++ replicate n b
replicate-append zero n b = let e : 0 + n ≡ n = omega arith in rw e
replicate-append (suc m) n b =
    let e : suc m + n ≡ suc (m + n) = omega arith in rw e (ap (◌∷◌ b) (replicate-append m n b))

pub le_value-le_bytes : (k n : ℕ) → n < 256 ^ k → le_value (le_bytes k n) ≡ n
unfolding le_bytes le_value
le_value-le_bytes zero n h = omega arith
le_value-le_bytes (suc k) n h =
    let less : n / 256 < 256 ^ k = omega (arith, (rw (pow-suc 256 k) at h)) in
    rw (le_value-le_bytes k (n / 256) less) (omega arith)

pub length-le_bytes : (k n : ℕ) → length (le_bytes k n) ≡ k
unfolding le_bytes
length-le_bytes zero n = refl
length-le_bytes (suc k) n = ap suc (length-le_bytes k (n / 256))
