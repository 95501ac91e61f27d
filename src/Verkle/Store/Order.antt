-- ===== src/Verkle/Store/Order.antt =====
-- The order of byte strings, and of the keys of one path.
use smaran.Prelude.{ℕ, zero, suc, ◌+◌, ◌*◌, ◌^◌, ◌<◌, ◌≡◌, refl, sym, ◌∙◌, arith, true, false}
use smaran.Prelude.{List, [], ◌∷◌, ◌++◌, length, take, All, ltb, ◌==◌, ==_iff, if◌then◌else◌}
use mathlib.Core.List.{foldl}
use smaran.Bytes.{be_bytes, be_value}
use smaran.Bytes.Laws.{be_value-be_bytes, length-be_bytes}
use smaran.Verkle.Store.{bytes_lt}

-- What lies between two strings with one prefix has it too.
pub prefix_between :
    (p a b k : List ℕ)
    → bytes_lt k (p ++ a) ≡ false
    → bytes_lt k (p ++ b) ≡ true
    → take (length p) k ≡ p
unfolding bytes_lt
prefix_between [] a b k low high = refl
prefix_between (x ∷ p) a b [] low high = cc
prefix_between (x ∷ p) a b (y ∷ k) low high =
    let at : y ≡ x = ground (arith, ==_iff y x) in
    let low' : bytes_lt k (p ++ a) ≡ false = ground (arith, ==_iff y x) in
    let high' : bytes_lt k (p ++ b) ≡ true = ground (arith, ==_iff y x) in
    rw (at, prefix_between p a b k low' high') refl

pub bytes_lt-prefix : (p a b : List ℕ) → bytes_lt (p ++ a) (p ++ b) ≡ bytes_lt a b
unfolding bytes_lt
bytes_lt-prefix [] a b = refl
bytes_lt-prefix (x ∷ p) a b =
    let low : ltb x x ≡ false = ground arith in
    let same : (x == x) ≡ true = ground arith in rw (low, same) (bytes_lt-prefix p a b)

-- Strings of bytes of one length are ordered as their big-endian numbers.
value_lt :
    (xs ys : List ℕ) (m n : ℕ)
    → length xs ≡ length ys
    → All (λ x. x < 256) xs
    → All (λ y. y < 256) ys
    → ltb (foldl (λ acc b. acc * 256 + b) m xs) (foldl (λ acc b. acc * 256 + b) n ys)
      ≡ (if ltb m n then true else if m == n then bytes_lt xs ys else false)
unfolding bytes_lt
value_lt [] [] m n e h k = ground arith
value_lt [] (y ∷ ys) m n e h k = absurd (omega arith)
value_lt (x ∷ xs) [] m n e h k = absurd (omega arith)
value_lt (x ∷ xs) (y ∷ ys) m n e (hx, h) (ky, k) =
    value_lt xs ys (m * 256 + x) (n * 256 + y) (omega arith) h k ∙ ground arith

be_bytes-small : (k n : ℕ) → All (λ x. x < 256) (be_bytes k n)
unfolding be_bytes
be_bytes-small zero n = tt
be_bytes-small (suc k) n = (omega arith, be_bytes-small k n)

pub bytes_lt-be_bytes :
    (k a b : ℕ) → a < 256 ^ k → b < 256 ^ k → bytes_lt (be_bytes k a) (be_bytes k b) ≡ ltb a b
unfolding be_value
bytes_lt-be_bytes k a b ha hb =
    let value =
      value_lt (be_bytes k a) (be_bytes k b) 0 0 (length-be_bytes k a ∙ sym (length-be_bytes k b))
        (be_bytes-small k a) (be_bytes-small k b) in
    sym value ∙ rw (be_value-be_bytes k a ha, be_value-be_bytes k b hb) refl
