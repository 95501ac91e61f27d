-- ===== src/Node.antt =====
-- internal/kt/tree/helpers.go: the numbering of the nodes of a segment tree in one array.
-- The root is 0 and the children of n are 2n + 1 and 2n + 2.
pub mod Under
mod Runs
use smaran.Prelude.{ℕ, zero, suc, ◌+◌, ◌-◌, ◌*◌, ◌/◌, ◌%◌, ◌<◌, ◌≡◌, ◌≢◌, refl, arith}
use smaran.Prelude.{Option, none, some, List, [], ◌∷◌, ◌==◌, if◌then◌else◌}
use mathlib.Core.Option

-- The two returns of GetParent, for a node that is not the root.
unfoldable pub parent_of : ℕ → ℕ
parent_of node_idx = if node_idx % 2 == 0 then (node_idx - 2) / 2 else (node_idx - 1) / 2

-- `none` is the panic "root has no parent".
unfoldable pub get_parent : ℕ → Option ℕ
unfolding parent_of
get_parent node_idx = if node_idx == 0 then none else some (parent_of node_idx)

unfoldable pub get_left_child : ℕ → ℕ
get_left_child node_idx = 2 * node_idx + 1

unfoldable pub get_right_child : ℕ → ℕ
get_right_child node_idx = 2 * node_idx + 2

unfoldable pub get_sibling : ℕ → ℕ
get_sibling node_idx =
    if node_idx == 0 then 0 else if node_idx % 2 == 0 then node_idx - 1 else node_idx + 1

-- The loop of GetAncestors on fuel; `none` is a panic or the end of the fuel.
ancestors_loop : ℕ → ℕ → Option (List ℕ)
ancestors_loop zero node_idx = none
ancestors_loop (suc fuel) node_idx =
    let rest = Option.map (◌∷◌ (parent_of node_idx)) (ancestors_loop fuel (parent_of node_idx)) in
    if node_idx == 0 then some [] else rest

unfoldable pub get_ancestors : ℕ → Option (List ℕ)
unfolding ancestors_loop
get_ancestors node_idx = ancestors_loop (node_idx + 1) node_idx

-- From a node to its parent and back to the child on the side that the parity tells; the root stays.
child_of_parent : ℕ → ℕ
unfolding parent_of get_left_child get_right_child
child_of_parent n =
    if n == 0
    then 0
    else if n % 2 == 0
    then get_right_child (parent_of n)
    else get_left_child (parent_of n)

-- A node is the parent of both its children, and every node but the root is the right child of its
-- parent if it is even, and the left child if it is odd.
get_parent-child :
    (n : ℕ)
    → (get_parent (get_left_child n) ≡ some n)
      × (get_parent (get_right_child n) ≡ some n)
      × (child_of_parent n ≡ n)
unfolding get_parent get_left_child get_right_child child_of_parent
get_parent-child n = (ground arith, ground arith, ground arith)

-- The sibling of a node other than the root is another node with the same parent, and the sibling
-- of the sibling is the node again.
pub get_sibling_lem :
    (n : ℕ)
    → 0 < n
    → (get_sibling n ≢ n)
      × (get_parent (get_sibling n) ≡ get_parent n)
      × (get_sibling (get_sibling n) ≡ n)
unfolding get_sibling get_parent
get_sibling_lem n h = (ground arith, ground arith, ground arith)

pub parent_of_lt : (n : ℕ) → 0 < n → (parent_of n < n) × (parent_of n ≡ (n - 1) / 2)
unfolding parent_of
parent_of_lt n h = (ground arith, ground arith)
