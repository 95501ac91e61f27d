-- ===== src/Account/Sample.antt =====
-- A small group for the commitments: the numbers with addition.
use smaran.Prelude.{ℕ, ◌+◌, ◌*◌, refl, arith, List, [], ◌∷◌, length}
use smaran.Account.Curve.{Crypto, CurveLaws, ℤ, pos, negsuc}

abbrev pub times : ℕ → ℤ → ℕ
times p (pos k) = p * k
times p (negsuc k) = 0

abbrev pub dot : List ℕ → List ℕ → ℕ
dot [] ks = 0
dot (p ∷ ps) [] = 0
dot (p ∷ ps) (k ∷ ks) = p * k + dot ps ks

abbrev pub sample_curve : Crypto
sample_curve = record {
  Point = ℕ;
  infinity = 0;
  add = λ p q. p + q;
  scalar_mul = times;
  multi_exp = dot;
  weight_commits = λ i. i + 1;
  hash_to_field_element = λ h. h;
  commitment_to_hash = λ p. p + 1;
  bytes_to_hash = λ bs. length bs + 1;
  hash_pair = λ a b. a + b + 1;
}

pub sample_curve-CurveLaws : CurveLaws sample_curve
sample_curve-CurveLaws = record {
  add_assoc = λ p q r. omega arith;
  add_comm = λ p q. omega arith;
  add_infinity = λ p. omega arith;
  scalar_mul_zero = λ p. omega arith;
  scalar_mul_field = λ p h. refl;
  multi_exp_nil = refl;
  multi_exp_cons = λ p ps k ks. refl;
}
