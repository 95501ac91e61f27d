-- ===== src/Verkle/Sample.antt =====
-- A group of two elements for the commitments, with the points written as 48 bytes.
use smaran.Prelude.{
  ℕ, ◌+◌, ◌%◌, ◌≡◌, refl, Bool, true, false, some, List, [], ◌∷◌, ◌++◌, replicate, length, get_or,
  ◌==◌, ◌&&◌,
}
use smaran.Prelude.{Bool-cases, inl, inr, arith}
use smaran.Account.Curve.{CurveLaws, Crypto, ℤ, pos, negsuc}
use smaran.Verkle.{PointCodec}
use smaran.Verkle.Serialize.{bit}
use smaran.Verkle.Commit.{FieldSub}

abbrev pub differ : Bool → Bool → Bool
differ true true = false
differ true false = true
differ false b = b

abbrev pub is_odd : ℤ → Bool
is_odd (pos k) = k % 2 == 1
is_odd (negsuc k) = k % 2 == 0

abbrev pub sum_of : List Bool → List ℕ → Bool
sum_of [] ks = false
sum_of (p ∷ ps) [] = false
sum_of (p ∷ ps) (k ∷ ks) = differ (p && is_odd (pos k)) (sum_of ps ks)

abbrev pub two_points : Crypto
two_points = record {
  Point = Bool;
  infinity = false;
  add = differ;
  scalar_mul = λ p k. p && is_odd k;
  multi_exp = sum_of;
  weight_commits = λ i. true;
  hash_to_field_element = λ h. h;
  commitment_to_hash = λ p. bit p + 1;
  bytes_to_hash = λ bs. length bs + 1;
  hash_pair = λ a b. a + b + 1;
}

abbrev pub bytes_of : Bool → List ℕ
bytes_of p = replicate 47 0 ++ bit p ∷ []

pub length-bytes_of : (p : Bool) → length (bytes_of p) ≡ 48
length-bytes_of p = refl

pub get_or-bytes_of : (p : Bool) → some (get_or (bytes_of p) 47 0 == 1) ≡ some p
get_or-bytes_of true = refl
get_or-bytes_of false = refl

abbrev pub two_codec : PointCodec
two_codec = record {
  crypto = two_points;
  point_bytes = bytes_of;
  set_bytes = λ bs. some (get_or bs 47 0 == 1);
  length-point_bytes = length-bytes_of;
  set_bytes-point_bytes = get_or-bytes_of;
}

differ_assoc : (p q r : Bool) → differ (differ p q) r ≡ differ p (differ q r)
differ_assoc true true true = refl
differ_assoc true true false = refl
differ_assoc true false r = refl
differ_assoc false q r = refl

differ_comm : (p q : Bool) → differ p q ≡ differ q p
differ_comm true true = refl
differ_comm true false = refl
differ_comm false true = refl
differ_comm false false = refl

differ-false : (p : Bool) → differ p false ≡ p
differ-false true = refl
differ-false false = refl

and_false : (p : Bool) → (p && false) ≡ false
and_false true = refl
and_false false = refl

pub two_points-CurveLaws : CurveLaws two_points
two_points-CurveLaws = record {
  add_assoc = differ_assoc;
  add_comm = differ_comm;
  add_infinity = differ-false;
  scalar_mul_zero = and_false;
  scalar_mul_field = λ p h. refl;
  multi_exp_nil = refl;
  multi_exp_cons = λ p ps k ks. refl;
}

odd-add :
    (p : Bool) (a b : ℕ)
    → differ (p && is_odd (pos (a + b))) (p && is_odd (pos b)) ≡ (p && is_odd (pos a))
odd-add true a b = elim (Bool-cases (a % 2 == 1)) [
  | inl x ↦ elim (Bool-cases (b % 2 == 1)) [
    | inl y ↦ let s : ((a + b) % 2 == 1) ≡ false = ground arith in rw (x, y, s) refl
    | inr y ↦ let s : ((a + b) % 2 == 1) ≡ true = ground arith in rw (x, y, s) refl
  ]
  | inr x ↦ elim (Bool-cases (b % 2 == 1)) [
    | inl y ↦ let s : ((a + b) % 2 == 1) ≡ true = ground arith in rw (x, y, s) refl
    | inr y ↦ let s : ((a + b) % 2 == 1) ≡ false = ground arith in rw (x, y, s) refl
  ]
]
odd-add false a b = refl

pub two_points-FieldSub : FieldSub two_points
two_points-FieldSub = record { field_sub = λ a b. a + b; scalar_mul-field_sub = odd-add }
