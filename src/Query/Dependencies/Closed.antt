-- ===== src/Query/Dependencies/Closed.antt =====
-- The commitments of a query are closed under the step to the tree above.
use smaran.Prelude.{
  ℕ, zero, suc, ◌+◌, ◌-◌, ◌*◌, ◌/◌, ◌≤◌, ◌<◌, ◌≡◌, refl, ◌∙◌, arith, Bool, true, false,
}
use smaran.Prelude.{◌&&◌, ◌||◌, Option, some, List, [], ◌∷◌, ◌++◌, length, ◌==◌, ltb, not}
use smaran.Prelude.{All, Bool-cases, inl, inr}
use smaran.Node.Under.{occurs}
use smaran.Query.Geometry.{l2_batch_size}
use smaran.Query.Ranges.{RangeCommitment}
use smaran.Query.Dependencies.{has_key, exists_key, put, add_dependent, parent_commitment, collect}
use smaran.Query.Dependencies.{dependency_loop, add_depencency_commitments}

-- The commitment of the tree with this layer and index lists `dep` among its dependents.
unfoldable pub depends : ℕ → ℕ → ℕ → List RangeCommitment → Bool
unfolding has_key occurs
depends layer idx dep [] = false
depends layer idx dep (c ∷ cs) =
    (has_key layer idx c && occurs dep c.dependent_commitments) || depends layer idx dep cs

occurs-append : (x y : ℕ) (xs : List ℕ) → occurs x (xs ++ y ∷ []) ≡ (occurs x xs || x == y)
unfolding occurs
occurs-append x y [] = ground arith
occurs-append x y (z ∷ xs) = ground (arith, occurs-append x y xs)

module _ (l i : ℕ) where
  exists_key-add_dependent :
      (layer idx dep : ℕ) (cs : List RangeCommitment)
      → exists_key l i (add_dependent layer idx dep cs) ≡ exists_key l i cs
  unfolding exists_key add_dependent
  exists_key-add_dependent layer idx dep [] = refl
  exists_key-add_dependent layer idx dep (c ∷ cs) =
      ground (arith, exists_key-add_dependent layer idx dep cs)

  exists_key-put :
      (c : RangeCommitment) (cs : List RangeCommitment)
      → exists_key l i (put c cs) ≡ (has_key l i c || exists_key l i cs)
  unfolding exists_key put
  exists_key-put c [] = ground arith
  exists_key-put c (d ∷ cs) = ground (arith, exists_key-put c cs)

  exists_key-append :
      (cs ds : List RangeCommitment)
      → exists_key l i (cs ++ ds) ≡ (exists_key l i cs || exists_key l i ds)
  unfolding exists_key
  exists_key-append [] ds = refl
  exists_key-append (c ∷ cs) ds = ground (arith, exists_key-append cs ds)

  exists_key-collect :
      (cs ds : List RangeCommitment)
      → exists_key l i (collect cs ds) ≡ (exists_key l i cs || exists_key l i ds)
  unfolding collect exists_key
  exists_key-collect cs [] = ground arith
  exists_key-collect cs (d ∷ ds) =
      ground (arith, exists_key-collect (put d cs) ds, exists_key-put d cs)

  module _ (j : ℕ) where
    depends-add_dependent :
        (layer idx dep : ℕ) (cs : List RangeCommitment)
        → exists_key layer idx cs ≡ true
        → depends l i j cs || (layer == l && idx == i && dep == j) ≡ true
        → depends l i j (add_dependent layer idx dep cs) ≡ true
    unfolding exists_key add_dependent depends
    depends-add_dependent layer idx dep [] e h = cc
    depends-add_dependent layer idx dep (c ∷ cs) e h =
        ground (
          arith,
          depends-add_dependent layer idx dep cs,
          occurs-append j dep c.dependent_commitments,
        )

    depends-put :
        (c : RangeCommitment) (cs : List RangeCommitment)
        → exists_key c.layer c.idx cs ≡ false
        → depends l i j (put c cs)
          ≡ (depends l i j cs || (has_key l i c && occurs j c.dependent_commitments))
    unfolding exists_key put depends
    depends-put c [] e = ground arith
    depends-put c (d ∷ cs) e = ground (arith, depends-put c cs)

module _ (max_layer : ℕ) where
  abbrev pub InLayers : RangeCommitment → Type 0
  InLayers d = (1 ≤ d.layer) × (d.layer ≤ max_layer)

  -- The layers that the queue still has to go through.
  abbrev pending : List RangeCommitment → ℕ
  pending [] = 0
  pending (d ∷ ds) = (max_layer + 1 - d.layer) + pending ds

  -- Each key below the top layer waits in the queue, or is listed by the tree above it.
  abbrev IsLinked : List RangeCommitment → List RangeCommitment → Type 0
  IsLinked entries queue =
      (l i : ℕ)
      → exists_key l i entries ≡ true
      → l < max_layer
      → (exists_key l i queue || depends (l + 1) (i / l2_batch_size) i entries) ≡ true

  IsLinked-skip :
      (d : RangeCommitment) (entries queue : List RangeCommitment)
      → IsLinked entries (d ∷ queue)
      → d.layer ≡ max_layer
      → IsLinked entries queue
  unfolding exists_key
  IsLinked-skip d entries queue inv top l i e h = ground (arith, inv l i)

  IsLinked-known :
      (d : RangeCommitment) (entries queue : List RangeCommitment)
      → IsLinked entries (d ∷ queue)
      → exists_key (d.layer + 1) (d.idx / l2_batch_size) entries ≡ true
      → IsLinked (add_dependent (d.layer + 1) (d.idx / l2_batch_size) d.idx entries) queue
  unfolding exists_key
  IsLinked-known d entries queue inv known l i e h = ground (
    arith,
    inv l i,
    exists_key-add_dependent l i (d.layer + 1) (d.idx / l2_batch_size) d.idx entries,
    depends-add_dependent (l + 1) (i / l2_batch_size) i (d.layer + 1) (d.idx / l2_batch_size) d.idx
        entries,
  )

  IsLinked-fresh :
      (d : RangeCommitment) (entries queue : List RangeCommitment)
      → IsLinked entries (d ∷ queue)
      → exists_key (d.layer + 1) (d.idx / l2_batch_size) entries ≡ false
      → IsLinked (put (parent_commitment d) entries) (queue ++ parent_commitment d ∷ [])
  unfolding exists_key has_key occurs
  IsLinked-fresh d entries queue inv fresh l i e h = ground (
    arith,
    inv l i,
    exists_key-put l i (parent_commitment d) entries,
    exists_key-append l i queue (parent_commitment d ∷ []),
    depends-put (l + 1) (i / l2_batch_size) i (parent_commitment d) entries,
  )

  pending-append :
      (cs : List RangeCommitment) (d : RangeCommitment)
      → pending (cs ++ d ∷ []) ≡ pending cs + (max_layer + 1 - d.layer)
  pending-append [] d = omega arith
  pending-append (c ∷ cs) d = omega (arith, pending-append cs d)

  All-snoc :
      (cs : List RangeCommitment) (d : RangeCommitment)
      → All InLayers cs
      → InLayers d
      → All InLayers (cs ++ d ∷ [])
  All-snoc [] d h k = (k, tt)
  All-snoc (c ∷ cs) d h k = (h.0, All-snoc cs d h.1 k)

  next_layer :
      (d : RangeCommitment)
      → (d.layer == max_layer) ≡ false
      → InLayers d
      → InLayers (parent_commitment d)
  next_layer d below h = (omega arith, ground (arith, h))

  pending_fresh :
      (fuel : ℕ) (d : RangeCommitment) (queue : List RangeCommitment)
      → pending (d ∷ queue) ≤ suc fuel
      → (d.layer == max_layer) ≡ false
      → InLayers d
      → pending (queue ++ parent_commitment d ∷ []) ≤ fuel
  pending_fresh fuel d queue f below h =
      ground (arith, h, pending-append queue (parent_commitment d))

  -- What the loop returns: the keys that were there, linked.
  abbrev Closes : List RangeCommitment → Option (List RangeCommitment) → Type 0
  Closes entries result =
      (cs : List RangeCommitment) × (result ≡ some cs)
      × ((l i : ℕ) → exists_key l i entries ≡ true → exists_key l i cs ≡ true)
      × ((l i : ℕ)
          → exists_key l i cs ≡ true
          → l < max_layer
          → depends (l + 1) (i / l2_batch_size) i cs ≡ true)

  Closes-from :
      (entries entries' : List RangeCommitment) (result : Option (List RangeCommitment))
      → ((l i : ℕ) → exists_key l i entries ≡ true → exists_key l i entries' ≡ true)
      → Closes entries' result
      → Closes entries result
  Closes-from entries entries' result keep (cs, run, kept, linked) =
      (cs, run, λ l i e. kept l i (keep l i e), linked)

  dependency_loop-Closes :
      (fuel : ℕ) (entries queue : List RangeCommitment)
      → All InLayers queue
      → pending queue ≤ fuel
      → IsLinked entries queue
      → Closes entries (dependency_loop max_layer fuel entries queue)
  unfolding dependency_loop
  dependency_loop-Closes fuel entries [] layers f inv =
      (entries, refl, λ l i e. e, λ l i e h. unfold exists_key in inv l i e h)
  dependency_loop-Closes zero entries (d ∷ queue) layers f inv = absurd (omega (arith, layers.0))
  dependency_loop-Closes (suc fuel) entries (d ∷ queue) layers f inv =
      elim (Bool-cases (d.layer == max_layer)) [
        | inl top ↦ rw top (
            dependency_loop-Closes fuel entries queue layers.1 (omega (arith, layers.0))
              (IsLinked-skip d entries queue inv (ground arith)))
        | inr below ↦ elim (Bool-cases (exists_key (d.layer + 1) (d.idx / l2_batch_size) entries)) [
          | inl known ↦
              rw (below, known)
                (Closes-from entries
                  (add_dependent (d.layer + 1) (d.idx / l2_batch_size) d.idx entries) _
                  (λ l i e.
                    exists_key-add_dependent l i (d.layer + 1) (d.idx / l2_batch_size) d.idx entries
                    ∙ e)
                  (dependency_loop-Closes fuel
                    (add_dependent (d.layer + 1) (d.idx / l2_batch_size) d.idx entries) queue
                    layers.1 (omega (arith, layers.0)) (IsLinked-known d entries queue inv known)))
          | inr fresh ↦
              rw (below, fresh)
                (Closes-from entries (put (parent_commitment d) entries) _
                  (λ l i e. ground (arith, e, exists_key-put l i (parent_commitment d) entries))
                  (dependency_loop-Closes fuel (put (parent_commitment d) entries)
                    (queue ++ parent_commitment d ∷ [])
                    (All-snoc queue (parent_commitment d) layers.1 (next_layer d below layers.0))
                    (pending_fresh fuel d queue f below layers.0)
                    (IsLinked-fresh d entries queue inv fresh)))
        ]
      ]

  pending-le : (ds : List RangeCommitment) → All InLayers ds → pending ds ≤ length ds * max_layer
  pending-le [] h = omega arith
  pending-le (d ∷ ds) h = omega (arith, h.0, pending-le ds h.1)

  -- If all given commitments lie in the layers 1 to `max_layer`, addDepencencyCommitments ends. For each
  -- layer `l` and index `i`, its result has the commitment of that tree if a given one has it; and if
  -- the result has it and the layer is below the top, the result has the commitment of the tree above
  -- too, which lists `i` as dependent.
  pub add_depencency_commitments-closed :
      (ds : List RangeCommitment) (l i : ℕ)
      → All InLayers ds
      → (cs : List RangeCommitment) × (add_depencency_commitments max_layer ds ≡ some cs)
        × ((not (exists_key l i ds) || exists_key l i cs) ≡ true)
        × ((not (exists_key l i cs && ltb l max_layer) || depends (l + 1) (i / l2_batch_size) i cs)
            ≡ true)
  unfolding add_depencency_commitments
  add_depencency_commitments-closed ds l i h =
      let collected = λ (l i : ℕ). exists_key-collect l i [] ds in
      let (cs, run, kept, linked) =
        Closes-from ds (collect [] ds) _
          (λ l i e. unfold exists_key in ground (arith, collected l i))
          (dependency_loop-Closes (length ds * max_layer) (collect [] ds) ds h (pending-le ds h)
            (λ l i e k. unfold exists_key in ground (arith, collected l i))) in
      (cs, run, ground (arith, kept l i), ground (arith, linked l i))
