-- ===== src/Verkle/Commit.antt =====
-- internal/verklekzg/tree/tree.go: Commit, which adds to each commitment what has changed below it.
pub mod Slots
pub mod Sealed
pub mod Missed
use smaran.Prelude.{
  ℕ, zero, suc, ◌+◌, ◌≡◌, Bool, true, false, Option, some, none, ◌==◌, if◌then◌else◌, not,
}
use smaran.Account.{update_at}
use smaran.Account.Curve.{Crypto, pos}
use smaran.Verkle.{
  PointCodec, LeafNode, VerkleNode, empty, internal, leaf, hashed, node_commitment, is_dirty,
}
use smaran.Verkle.Serialize.{slot_hash}

-- fr.Element.Sub on two hashes, each taken as a field element, as a number; the multiples of a point are taken
-- modulo the order of the field.
module _ (c : Crypto) where
  pub record FieldSub : Type 0 where
    pub field_sub : ℕ → ℕ → ℕ
    pub scalar_mul-field_sub :
        (p : c.Point) (a b : ℕ)
        → c.add
            (c.scalar_mul p
              (pos (field_sub (c.hash_to_field_element a) (c.hash_to_field_element b))))
            (c.scalar_mul p (pos b))
          ≡ c.scalar_mul p (pos a)

module _ (c : Crypto) (f : FieldSub c) where
  unfoldable pub delta : ℕ → ℕ → ℕ
  delta new_hash old_hash =
      if old_hash == 0
      then c.hash_to_field_element new_hash
      else f.field_sub (c.hash_to_field_element new_hash) (c.hash_to_field_element old_hash)

  -- The body of both loops past the skips: the commitment and the cached hashes, for slot `i`.
  unfoldable pub slot_step : ℕ → ℕ → c.Point × (ℕ → ℕ) → c.Point × (ℕ → ℕ)
  unfolding delta
  slot_step i new_hash (commitment, hashes) =
      if new_hash == hashes i then (commitment, hashes) else (
        c.add commitment (c.scalar_mul (c.weight_commits i) (pos (delta new_hash (hashes i)))),
        update_at i new_hash hashes,
      )

  -- A skipped slot has `none`.
  unfoldable pub slot_round : ℕ → Option ℕ → c.Point × (ℕ → ℕ) → c.Point × (ℕ → ℕ)
  slot_round i none st = st
  slot_round i (some new_hash) st = slot_step i new_hash st

  unfoldable pub slots_loop : (ℕ → Option ℕ) → ℕ → ℕ → c.Point × (ℕ → ℕ) → c.Point × (ℕ → ℕ)
  slots_loop hashes zero i st = st
  slots_loop hashes (suc rounds) i st =
      slots_loop hashes rounds (i + 1) (slot_round i (hashes i) st)

module _ (pc : PointCodec) (f : FieldSub pc.crypto) where
  -- Commit of a leaf: each slot has the hash of its value, the last that of the stem.
  unfoldable pub commit_leaf : LeafNode pc.crypto.Point → LeafNode pc.crypto.Point
  commit_leaf l =
      let st =
        slots_loop pc.crypto f (λ i. some (slot_hash pc l.stem l.values i)) 256 0
          (l.commitment, l.cached_slot_hashes) in
      if l.dirty
      then record l { commitment = st.0; cached_slot_hashes = st.1; dirty = false }
      else l

  -- What the loop of an internal node makes of a child: only a dirty one counts, with its new commitment.
  abbrev pub child_hash : VerkleNode pc.crypto.Point → VerkleNode pc.crypto.Point → Option ℕ
  child_hash child committed =
      if is_dirty child
      then some (pc.crypto.commitment_to_hash (node_commitment pc.crypto committed))
      else none

  unfoldable pub commit : VerkleNode pc.crypto.Point → VerkleNode pc.crypto.Point
  unfolding commit_leaf is_dirty
  commit empty = empty
  commit (leaf l) = leaf (commit_leaf l)
  commit (hashed commitment path) = hashed commitment path
  commit (internal children commitment hashes depth dirty) =
      let st =
        slots_loop pc.crypto f (λ i. child_hash (children i) (commit (children i))) 256 0
          (commitment, hashes) in
      if dirty
      then internal (λ i. if is_dirty (children i) then commit (children i) else children i) st.0
          st.1 depth false
      else internal children commitment hashes depth dirty
