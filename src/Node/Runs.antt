-- ===== src/Node/Runs.antt =====
-- Runs of the node arithmetic on concrete numbers.
use smaran.Prelude.{ℕ, ◌≡◌, List, some, not, ◌&&◌, ◌==◌}
use smaran.Node.{get_ancestors}
use smaran.Node.Under.{occurs, under, get_ancestors_lem}

get_ancestors_lem_example :
    (ups : List ℕ) × (get_ancestors 2047 ≡ some ups)
    × (occurs 3 ups ≡ (under 3 2047 && not (3 == 2047)))
get_ancestors_lem_example = get_ancestors_lem 2047 3
