-- ===== src/Verkle/Flush/Nodes.antt =====
-- The list that the loop over the children makes.
use smaran.Prelude.{
  ℕ, zero, suc, ◌+◌, ◌≤◌, ◌<◌, ◌≡◌, refl, ap, arith, Option, some, none, Bool-cases, inl, inr,
}
use smaran.Prelude.{List, [], ◌∷◌, ◌++◌, All, ==_iff, ◌==◌, value_or}
use mathlib.Core.Option
use smaran.Verkle.Flush.{SerializedNode, batch_children}

pub bind-some :
    {A B : Type 0} (o : Option A) (g : A → Option B) (b : B)
    → Option.bind o g ≡ some b
    → (a : A) × (o ≡ some a) × (g a ≡ some b)
unfolding Option.bind
bind-some none g b e = absurd (cc)
bind-some (some a) g b e = (a, refl, e)

pub map-some :
    {A B : Type 0} (o : Option A) (g : A → B) (b : B)
    → Option.map g o ≡ some b
    → (a : A) × (o ≡ some a) × (g a ≡ b)
map-some none g b e = absurd (cc)
map-some (some a) g b e = (a, refl, ap (value_or b) e)

pub All-append-left :
    {A : Type 0} (P : A → Type 0) (xs ys : List A) → All P (xs ++ ys) → All P xs × All P ys
All-append-left P [] ys h = (tt, h)
All-append-left P (x ∷ xs) ys (p, h) = let (l, r) = All-append-left P xs ys h in ((p, l), r)

-- The nodes of each child are among those of all.
pub batch_children-All :
    (P : SerializedNode → Type 0) (child : ℕ → Option (List SerializedNode)) (rounds i j : ℕ)
    (all : List SerializedNode)
    → i ≤ j
    → j < i + rounds
    → batch_children child rounds i ≡ some all
    → All P all
    → (nodes : List SerializedNode) × (child j ≡ some nodes) × All P nodes
unfolding batch_children
batch_children-All P child zero i j all a b e h = absurd (omega arith)
batch_children-All P child (suc rounds) i j all a b e h =
    let (nodes, here, e') = bind-some (child i) _ all e in
    let (rest, after, joined) = map-some (batch_children child rounds (i + 1)) _ all e' in
    let (first, others) = All-append-left P nodes rest (rw joined h) in
    elim (Bool-cases (j == i)) [
      | inl same ↦ (nodes, rw ((==_iff j i).0 same) here, first)
      | inr other ↦
          let next : i + 1 ≤ j = ground (arith, ==_iff j i) in
          batch_children-All P child rounds (i + 1) j rest next (omega arith) after others
    ]

pub batch_children-total :
    (child : ℕ → Option (List SerializedNode)) (rounds i : ℕ)
    → ((j : ℕ) → (nodes : List SerializedNode) × (child j ≡ some nodes))
    → (all : List SerializedNode) × (batch_children child rounds i ≡ some all)
unfolding batch_children Option.bind
batch_children-total child zero i h = ([], refl)
batch_children-total child (suc rounds) i h =
    let (nodes, e) = h i in
    let (rest, e') = batch_children-total child rounds (i + 1) h in (nodes ++ rest, rw (e, e') refl)
