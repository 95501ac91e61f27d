-- ===== src/Account/Curve.antt =====
-- What the trees use of gnark-crypto and of the hash packages; a common.Hash is its value as a number.
use smaran.Prelude.{ℕ, ◌-◌, ◌≡◌, List, [], ◌∷◌, leb, if◌then◌else◌}

-- A math/big integer, with the library's constructors over the native numbers.
pub data ℤ : Type 0 where
  pos : ℕ → ℤ
  negsuc : ℕ → ℤ

-- big.Int.Sub on two non-negative numbers.
unfoldable pub sub : ℕ → ℕ → ℤ
sub a b = if leb b a then pos (a - b) else negsuc (b - a - 1)

-- The curve points of commitments, the commitments to the basis polynomials, and the hashes.
pub record Crypto : Type 1 where
  pub Point : Type 0
  pub infinity : Point
  pub add : Point → Point → Point
  pub scalar_mul : Point → ℤ → Point
  pub multi_exp : List Point → List ℕ → Point
  -- PrecomputedData.WeightCommits
  pub weight_commits : ℕ → Point
  pub hash_to_field_element : ℕ → ℕ
  pub commitment_to_hash : Point → ℕ
  -- hash.BytesToHash of one byte string, and of two hashes.
  pub bytes_to_hash : List ℕ → ℕ
  pub hash_pair : ℕ → ℕ → ℕ

-- The documented behaviour of the curve's operations: a commutative group, whose multiples are taken
-- modulo its order, so that a scalar and its field element act alike.
module _ (c : Crypto) where
  pub record CurveLaws : Type 0 where
    pub add_assoc : (p q r : c.Point) → c.add (c.add p q) r ≡ c.add p (c.add q r)
    pub add_comm : (p q : c.Point) → c.add p q ≡ c.add q p
    pub add_infinity : (p : c.Point) → c.add p c.infinity ≡ p
    pub scalar_mul_zero : (p : c.Point) → c.scalar_mul p (pos 0) ≡ c.infinity
    pub scalar_mul_field :
        (p : c.Point) (h : ℕ)
        → c.scalar_mul p (pos (c.hash_to_field_element h)) ≡ c.scalar_mul p (pos h)
    pub multi_exp_nil : c.multi_exp [] [] ≡ c.infinity
    pub multi_exp_cons :
        (p : c.Point) (ps : List c.Point) (k : ℕ) (ks : List ℕ)
        → c.multi_exp (p ∷ ps) (k ∷ ks) ≡ c.add (c.scalar_mul p (pos k)) (c.multi_exp ps ks)
