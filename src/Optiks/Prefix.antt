-- ===== src/Optiks/Prefix.antt =====
-- computeCommonProofPrefix, and the removal of the prefix in getResult.
pub mod Longest
use smaran.Prelude.{ℕ, zero, suc, ◌+◌, ◌-◌, Bool, true, false, ◌&&◌, Option, some, none}
use smaran.Prelude.{List, [], ◌∷◌, ◌++◌, length, take, get_or, ltb, bytes_eq, if◌then◌else◌}

abbrev pub Proof : Type 0
Proof = List (List ℕ)

-- `minLen`, started from the length of the first proof.
unfoldable pub min_length : ℕ → List Proof → ℕ
min_length n [] = n
min_length n (p ∷ ps) = min_length (if ltb (length p) n then length p else n) ps

-- `allEqual` for position `i`: no proof has another node there than `ref`.
unfoldable pub all_equal : List ℕ → ℕ → List Proof → Bool
all_equal ref i [] = true
all_equal ref i (p ∷ ps) = bytes_eq ref (get_or p i []) && all_equal ref i ps

-- The loop over the positions, of which `rounds` are left; it returns `prefixLen`, which is `i` there.
unfoldable pub prefix_length : ℕ → ℕ → Proof → List Proof → ℕ
unfolding all_equal
prefix_length zero i first rest = i
prefix_length (suc rounds) i first rest =
    let more = prefix_length rounds (i + 1) first rest in
    if all_equal (get_or first i []) i rest then more else i

-- `nil` and the empty slice are both [].
unfoldable pub compute_common_proof_prefix : List Proof → Proof
unfolding min_length prefix_length
compute_common_proof_prefix [] = []
compute_common_proof_prefix (first ∷ rest) =
    take (prefix_length (min_length (length first) rest) 0 first rest) first
