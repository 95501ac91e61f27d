-- ===== src/Query/Runs.antt =====
-- Runs of the range queries on concrete numbers.
use smaran.Prelude.{ℕ, ◌+◌, ◌-◌, ◌*◌, ◌/◌, ◌≤◌, ◌<◌, ◌≡◌, refl, arith, true, not, ◌&&◌, ◌||◌}
use smaran.Prelude.{some, List, [], ◌∷◌, All, ltb, leb, if◌then◌else◌}
use smaran.Balance.{CurrentBalance}
use smaran.Node.Under.{hits}
use smaran.Query.Geometry.{batch_size, leaf_size, leaves, l2_batch_size}
use smaran.Query.Nodes.{find_covering_nodes}
use smaran.Query.Nodes.Cover.{find_covering_nodes-exact}
use smaran.Query.Ranges.{BlockRange, RangeCommitment, commitment, find_range_covering_commitments}
use smaran.Query.Ranges.Step.{covered, within}
use smaran.Query.Ranges.Exact.{find_range_covering_commitments-exact, single_layer_gap}
use smaran.Query.Ranges.Fit.{FitsCommitment, find_range_covering_commitments-Fits}
use smaran.Query.Interpolate.{range_nodes}
use smaran.Query.Interpolate.Exact.{Fits, range_nodes-exact}
use smaran.Query.Complete.{total_opened, query_complete}
use smaran.Query.Dependencies.{exists_key, add_depencency_commitments}
use smaran.Query.Dependencies.Closed.{depends, add_depencency_commitments-closed}
use smaran.Query.Versions.{
  History, binary_search_version, block_range_to_version_range, found, versions,
}
use smaran.Query.Versions.Search.{IsChain, binary_search_version-found}
use smaran.Query.Versions.Meets.{meets, block_range_to_version_range-meets}

two_layers : 5000 + 1 < batch_size 2
unfolding batch_size
two_layers = omega arith

query_complete_example :
    total_opened 2100 (find_range_covering_commitments 2 3 5000 1) ≡ within 2100 3 5000
query_complete_example = query_complete 2 3 5000 2100 (omega arith) (omega arith) two_layers

find_range_covering_commitments-exact_example :
    covered 2100 (find_range_covering_commitments 2 3 5000 1) ≡ within 2100 3 5000
find_range_covering_commitments-exact_example =
    find_range_covering_commitments-exact 2 3 5000 2100 (omega arith) (omega arith) two_layers

single_layer_gap_example : covered 17 (find_range_covering_commitments 1 0 2047 1) ≡ 0
single_layer_gap_example = single_layer_gap 2047 17 (omega arith) (omega arith)

find_range_covering_commitments-Fits_example :
    All FitsCommitment (find_range_covering_commitments 4 3 5000 1)
find_range_covering_commitments-Fits_example =
    find_range_covering_commitments-Fits 4 3 5000 (omega arith)

find_covering_nodes-exact_example :
    (out : List ℕ) × (find_covering_nodes 1365 3 900 ≡ some out)
    × (hits (1365 - 1 + 12) out ≡ (if leb 3 12 && leb 12 900 then 1 else 0))
find_covering_nodes-exact_example =
    find_covering_nodes-exact 1365 3 900 12 (omega arith) (omega arith) (omega arith)

abbrev lower : BlockRange
lower = record { start = 2048; end = 4095 }

lower-Fits : Fits 2 0 lower
unfolding leaf_size leaves
lower-Fits = record {
  deep = omega arith;
  first = 1;
  stop = 2;
  starts = refl;
  ends = refl;
  nonempty = omega arith;
  low = omega arith;
  high = omega arith;
}

in_lower : (0 * batch_size 2 ≤ 3000) × (3000 < (0 + 1) * batch_size 2)
unfolding batch_size
in_lower = (omega arith, omega arith)

range_nodes-exact_example :
    (out : List ℕ) × (range_nodes 2 0 (some lower) ≡ some out)
    × (hits (leaves 2 - 1 + (3000 / leaf_size 2 - 0 * leaves 2)) out
        ≡ within 3000 lower.start lower.end)
range_nodes-exact_example = range_nodes-exact 2 0 lower lower-Fits 3000 in_lower.0 in_lower.1

abbrev two_trees : List RangeCommitment
two_trees = commitment 1 1 2050 4095 ∷ commitment 2 1 4096 5000 ∷ []

add_depencency_commitments-closed_example :
    (cs : List RangeCommitment) × (add_depencency_commitments 4 two_trees ≡ some cs)
    × ((not (exists_key 1 2 two_trees) || exists_key 1 2 cs) ≡ true)
    × ((not (exists_key 1 2 cs && ltb 1 4) || depends (1 + 1) (2 / l2_batch_size) 2 cs) ≡ true)
add_depencency_commitments-closed_example =
    add_depencency_commitments-closed 4 two_trees 1 2
      ((omega arith, omega arith), ((omega arith, omega arith), tt))

-- Version v holds the blocks 10 v to 10 v + 9.
abbrev tens : History
tens v = record {
  current = record { version = v; balance = 100 + v; start_block = 10 * v };
  end_block = 10 * v + 9;
}

tens-IsChain : (count : ℕ) → IsChain tens count
tens-IsChain count = record { ordered = λ v h. omega arith; next = λ v h. omega arith }

binary_search_version-found_example : binary_search_version tens 34 0 6 ≡ found 3
binary_search_version-found_example =
    binary_search_version-found tens 7 (tens-IsChain 7) 6 3 34 (omega arith) (omega arith)
      (omega arith) (omega arith) (omega arith)

abbrev latest : CurrentBalance
latest = record { version = 7; balance = 5; start_block = 70 }

block_range_to_version_range-meets_example :
    (s : ℕ) × (e : ℕ) × (block_range_to_version_range tens (some latest) 15 52 ≡ versions s e)
    × (e < 7)
    × (meets tens 15 52 3 ≡ (leb s 3 && leb 3 e))
block_range_to_version_range-meets_example =
    block_range_to_version_range-meets tens latest (tens-IsChain 7) (omega arith) (omega arith)
      (omega arith) 15 52 (omega arith) (omega arith) (omega arith) 3 (omega arith)
