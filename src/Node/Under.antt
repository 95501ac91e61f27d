-- ===== src/Node/Under.antt =====
-- When one node lies on the way from another to the root, and the fact that GetAncestors lists these.
use smaran.Prelude.{ℕ, zero, suc, ◌+◌, ◌*◌, ◌≤◌, ◌<◌, ◌≡◌, refl, arith, ◌++◌, ◌&&◌, not}
use smaran.Prelude.{Bool, true, false, ◌||◌, some, List, [], ◌∷◌}
use smaran.Prelude.{◌==◌, if◌then◌else◌, All, Bool-cases, inl, inr}
use smaran.Node.{parent_of, parent_of_lt, ancestors_loop, get_ancestors}

-- The walk from `x` to the root, for at most `fuel` steps, meets `i`.
meets : ℕ → ℕ → ℕ → Bool
meets zero i x = i == x
meets (suc fuel) i x =
    let up = meets fuel i (parent_of x) in i == x || (if x == 0 then false else up)

-- `i` is `x` or one of the nodes above it.
unfoldable pub under : ℕ → ℕ → Bool
unfolding meets
under i x = meets x i x

-- How many nodes of a list have `x` below them, or are `x`.
unfoldable pub hits : ℕ → List ℕ → ℕ
hits x [] = 0
hits x (i ∷ is) = (if under i x then 1 else 0) + hits x is

meets_lt : (fuel i x : ℕ) → x < i → meets fuel i x ≡ false
unfolding meets
meets_lt zero i x h = ground arith
meets_lt (suc fuel) i x h = ground (arith, parent_of_lt x, meets_lt fuel i (parent_of x))

meets_fuel : (f g i x : ℕ) → x ≤ f → x ≤ g → meets f i x ≡ meets g i x
unfolding meets
meets_fuel zero zero i x hf hg = refl
meets_fuel zero (suc g) i x hf hg = ground arith
meets_fuel (suc f) zero i x hf hg = ground arith
meets_fuel (suc f) (suc g) i x hf hg =
    ground (arith, parent_of_lt x, meets_fuel f g i (parent_of x))

pub under_lt : (i x : ℕ) → x < i → under i x ≡ false
unfolding under
under_lt i x h = meets_lt x i x h

pub under_self : (x : ℕ) → under x x ≡ true
unfolding under
under_self zero = ground arith
under_self (suc x) = ground arith

pub under-parent_of : (i x : ℕ) → i < x → under i x ≡ under i (parent_of x)
unfolding under
under-parent_of i zero h = absurd (omega arith)
under-parent_of i (suc x) h =
    let p = parent_of_lt (suc x) in
    ground (arith, p, meets_fuel x (parent_of (suc x)) i (parent_of (suc x)))

-- A node that is at least half of `x` is above `x` only if it is `x`.
pub under_half : (i x : ℕ) → x ≤ 2 * i → under i x ≡ (i == x)
under_half i x h = elim (Bool-cases (i == x)) [
  | inl e ↦ let same : i ≡ x = ground arith in rw (e, same) (under_self x)
  | inr e ↦ rw e (below e)
]
  where
    below : (i == x) ≡ false → under i x ≡ false
    below e =
        ground (arith, under_lt i x, under-parent_of i x, under_lt i (parent_of x), parent_of_lt x)

pub hits-parent_of : (x : ℕ) (is : List ℕ) → All (λ i. i < x) is → hits x is ≡ hits (parent_of x) is
unfolding hits
hits-parent_of x [] h = refl
hits-parent_of x (i ∷ is) h = rw (under-parent_of i x h.0, hits-parent_of x is h.1)

pub hits-append : (x : ℕ) (is js : List ℕ) → hits x (is ++ js) ≡ hits x is + hits x js
unfolding hits
hits-append x [] js = omega arith
hits-append x (i ∷ is) js = omega (arith, hits-append x is js)

unfoldable pub occurs : ℕ → List ℕ → Bool
occurs i [] = false
occurs i (x ∷ xs) = i == x || occurs i xs

ancestors_loop_lem :
    (fuel x i : ℕ)
    → x < fuel
    → (ups : List ℕ) × (ancestors_loop fuel x ≡ some ups)
      × (occurs i ups ≡ (under i x && not (i == x)))
unfolding ancestors_loop occurs
ancestors_loop_lem zero x i h = absurd (omega arith)
ancestors_loop_lem (suc fuel) x i h = elim (Bool-cases (x == 0)) [
  | inl root ↦ ([], rw root, ground (arith, under_half i x))
  | inr inner ↦
      let p = parent_of_lt x (ground arith) in
      let (ups, e, o) = ancestors_loop_lem fuel (parent_of x) i (omega arith) in
      (
        parent_of x ∷ ups,
        rw (inner, e),
        ground
            (arith, o, under-parent_of i x, under_lt i x, under_self i, under_lt i (parent_of x)),
      )
]

-- GetAncestors ends on every node without a panic, and lists exactly the nodes other than the
-- argument that the walk along the parents meets.
pub get_ancestors_lem :
    (x i : ℕ)
    → (ups : List ℕ) × (get_ancestors x ≡ some ups) × (occurs i ups ≡ (under i x && not (i == x)))
unfolding get_ancestors
get_ancestors_lem x i = ancestors_loop_lem (x + 1) x i (omega arith)
