-- ===== src/Verkle/Store/Entries.antt =====
-- A list of entries as an ordered database.
use smaran.Prelude.{ℕ, ◌≡◌, refl, sym, ap, ◌∙◌, arith, true, false, Bool-cases, inl, inr}
use smaran.Prelude.{
  List, [], ◌∷◌, ==_iff, Option, some, none, bytes_eq, bytes_eq_iff, bytes_eq_refl, if◌then◌else◌,
}
use mathlib.Core.Path.{subst}
use smaran.Verkle.Store.{OrderedStore, bytes_lt}

bytes_lt_irrefl : (xs : List ℕ) → bytes_lt xs xs ≡ false
unfolding bytes_lt
bytes_lt_irrefl [] = refl
bytes_lt_irrefl (x ∷ xs) = ground (arith, bytes_lt_irrefl xs, ==_iff x x)

bytes_lt_asym : (xs ys : List ℕ) → bytes_lt xs ys ≡ true → bytes_lt ys xs ≡ false
unfolding bytes_lt
bytes_lt_asym [] [] h = refl
bytes_lt_asym [] (y ∷ ys) h = refl
bytes_lt_asym (x ∷ xs) [] h = cc
bytes_lt_asym (x ∷ xs) (y ∷ ys) h = ground (arith, bytes_lt_asym xs ys, ==_iff x y, ==_iff y x)

-- A string between or beside two.
bytes_lt_split :
    (xs ys zs : List ℕ) → bytes_lt xs zs ≡ true → bytes_lt xs ys ≡ false → bytes_lt ys zs ≡ true
unfolding bytes_lt
bytes_lt_split xs ys [] h k = cc
bytes_lt_split [] [] (z ∷ zs) h k = refl
bytes_lt_split [] (y ∷ ys) (z ∷ zs) h k = cc
bytes_lt_split (x ∷ xs) [] (z ∷ zs) h k = refl
bytes_lt_split (x ∷ xs) (y ∷ ys) (z ∷ zs) h k =
    ground (arith, bytes_lt_split xs ys zs, ==_iff x y, ==_iff x z, ==_iff y z)

abbrev pub Entry : Type 0
Entry = List ℕ × List ℕ

abbrev pub fetch_entry : List Entry → List ℕ → Option (List ℕ)
fetch_entry [] j = none
fetch_entry ((k, v) ∷ es) j = if bytes_eq k j then some v else fetch_entry es j

-- The larger of an entry below the bound and that of the rest.
abbrev pub later_entry : Entry → Option Entry → Option Entry
later_entry (k, v) none = some (k, v)
later_entry (k, v) (some (j, w)) = if bytes_lt k j then some (j, w) else some (k, v)

abbrev pub seek_entry : List Entry → List ℕ → Option Entry
seek_entry [] bound = none
seek_entry ((k, v) ∷ es) bound =
    let rest = seek_entry es bound in if bytes_lt k bound then later_entry (k, v) rest else rest

-- An entry whose key is not `j` hides nothing at `j`.
other_key :
    (k v j : List ℕ) (es : List Entry)
    → bytes_eq k j ≡ false
    → fetch_entry ((k, v) ∷ es) j ≡ fetch_entry es j
other_key k v j es e = rw e refl

pub less_apart : (k j : List ℕ) → bytes_lt k j ≡ true → bytes_eq k j ≡ false
less_apart k j less = elim (Bool-cases (bytes_eq k j)) [
  | inl same ↦
      let here = ap (bytes_lt k) (sym ((bytes_eq_iff k j).0 same)) in
      let never = bytes_lt_irrefl k in absurd (cc)
  | inr other ↦ other
]

bound_apart :
    (k j bound : List ℕ) → bytes_lt k bound ≡ false → bytes_lt j bound ≡ true → bytes_eq k j ≡ false
bound_apart k j bound past under = elim (Bool-cases (bytes_eq k j)) [
  | inl same ↦
      let here = ap (λ (x : List ℕ). bytes_lt x bound) ((bytes_eq_iff k j).0 same) in absurd (cc)
  | inr other ↦ other
]

between_apart : (k j i : List ℕ) → bytes_lt k j ≡ true → bytes_lt j i ≡ true → bytes_eq k i ≡ false
between_apart k j i low high = elim (Bool-cases (bytes_eq k i)) [
  | inl same ↦
      let here = ap (bytes_lt j) ((bytes_eq_iff k i).0 same) in
      let back = bytes_lt_asym k j low in absurd (cc)
  | inr other ↦ other
]

-- What a result of seek says of the entries.
abbrev Sought : List Entry → List ℕ → Option Entry → Type 0
Sought es bound none = (j : List ℕ) → bytes_lt j bound ≡ true → fetch_entry es j ≡ none
Sought es bound (some (k, v)) =
    (fetch_entry es k ≡ some v)
    × (bytes_lt k bound ≡ true)
    × ((j : List ℕ) → bytes_lt j bound ≡ true → bytes_lt k j ≡ true → fetch_entry es j ≡ none)

Sought-past :
    (k v bound : List ℕ) (es : List Entry) (r : Option Entry)
    → bytes_lt k bound ≡ false
    → Sought es bound r
    → Sought ((k, v) ∷ es) bound r
Sought-past k v bound es none past h =
    λ j under. other_key k v j es (bound_apart k j bound past under) ∙ h j under
Sought-past k v bound es (some (j, w)) past (here, below, above) = (
  other_key k v j es (bound_apart k j bound past below) ∙ here,
  below,
  λ i under less. other_key k v i es (bound_apart k i bound past under) ∙ above i under less,
)

Sought-under :
    (k v bound : List ℕ) (es : List Entry) (r : Option Entry)
    → bytes_lt k bound ≡ true
    → Sought es bound r
    → Sought ((k, v) ∷ es) bound (later_entry (k, v) r)
Sought-under k v bound es none less h = (
  rw (bytes_eq_refl k) refl,
  less,
  λ j under above. other_key k v j es (less_apart k j above) ∙ h j under,
)
Sought-under k v bound es (some (j, w)) less (here, below, above) =
    elim (Bool-cases (bytes_lt k j)) [
      | inl later ↦ rw later (
        other_key k v j es (less_apart k j later) ∙ here,
        below,
        λ i under over. other_key k v i es (between_apart k j i later over) ∙ above i under over,
      )
      | inr first ↦ rw first (
        rw (bytes_eq_refl k) refl,
        less,
        λ i under over.
            other_key k v i es (less_apart k i over)
            ∙ above i under (bytes_lt_split k j i over first),
      )
    ]

seek_entry-Sought : (es : List Entry) (bound : List ℕ) → Sought es bound (seek_entry es bound)
seek_entry-Sought [] bound = λ j under. refl
seek_entry-Sought ((k, v) ∷ es) bound = elim (Bool-cases (bytes_lt k bound)) [
  | inl less ↦
      rw less (Sought-under k v bound es (seek_entry es bound) less (seek_entry-Sought es bound))
  | inr past ↦
      rw past (Sought-past k v bound es (seek_entry es bound) past (seek_entry-Sought es bound))
]

pub seek_entry-some :
    (es : List Entry) (bound k v : List ℕ)
    → seek_entry es bound ≡ some (k, v)
    → (fetch_entry es k ≡ some v)
      × (bytes_lt k bound ≡ true)
      × ((j : List ℕ) → bytes_lt j bound ≡ true → bytes_lt k j ≡ true → fetch_entry es j ≡ none)
seek_entry-some es bound k v e = subst (Sought es bound) e (seek_entry-Sought es bound)

pub seek_entry-none :
    (es : List Entry) (bound j : List ℕ)
    → seek_entry es bound ≡ none
    → bytes_lt j bound ≡ true
    → fetch_entry es j ≡ none
seek_entry-none es bound j e under = subst (Sought es bound) e (seek_entry-Sought es bound) j under

abbrev pub entry_store : OrderedStore
entry_store = record {
  Db = List Entry;
  fetch = fetch_entry;
  seek_lt = seek_entry;
  seek_lt-some = seek_entry-some;
  seek_lt-none = seek_entry-none;
}
