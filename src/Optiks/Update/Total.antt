-- ===== src/Optiks/Update/Total.antt =====
-- When the server can apply its buffer: makeTrieKey panics on users longer than 24 bytes.
use smaran.Prelude.{
  ℕ, ◌+◌, ◌≡◌, refl, arith, Bool, true, false, not, ◌&&◌, ◌||◌, Option, some, none,
}
use smaran.Prelude.{List, [], ◌∷◌, ◌++◌, length, ltb, leb, Bool-cases, Option-cases, inl, inr}
use smaran.Bytes.{be_bytes}
use smaran.Optiks.Trie.{TrieLib}
use smaran.Optiks.Update.{
  KvPair, Directory, OptiksServer, u64, record_key, record_pairs, apply_updates,
}
use smaran.Optiks.Update.{flush}

unfoldable pub all_fit : List KvPair → Bool
all_fit [] = true
all_fit (p ∷ ps) = leb (length p.user) 24 && all_fit ps

unfoldable pub is_some {ℓ} : {A : Type ℓ} → Option A → Bool
is_some none = false
is_some (some a) = true

module _ (lib : TrieLib) where
  record_pairs-total :
      (epoch : ℕ) (ps : List KvPair) (d : Directory)
      → is_some (record_pairs lib epoch ps d) ≡ all_fit ps
  unfolding record_pairs all_fit is_some
  record_pairs-total epoch [] d = refl
  record_pairs-total epoch (p ∷ ps) d =
      let next = record_key epoch p d in
      let rest = record_pairs-total epoch ps next in
      elim (Bool-cases (ltb 32 (length p.user + 8))) [
        | inl long ↦
            let misfit : leb (length p.user) 24 ≡ false = ground arith in
            rw (is_some, long, misfit) refl
        | inr short ↦
            let fit : leb (length p.user) 24 ≡ true = ground arith in
            elim (Option-cases (record_pairs lib epoch ps next)) [
              | inl stop ↦ rw (is_some, short, fit, stop) (rw stop at rest)
              | inr (found, run) ↦ elim (Option-cases (lib.encode (be_bytes 8 epoch ++ p.key))) [
                | inl failed ↦ rw (is_some, short, fit, run, failed) (rw run at rest)
                | inr (value, encoded) ↦ rw (is_some, short, fit, run, encoded) (rw run at rest)
              ]
            ]
      ]

  pub apply_updates-total :
      (s : OptiksServer lib) → is_some (apply_updates lib s) ≡ all_fit s.update_buffer
  unfolding apply_updates is_some
  apply_updates-total s =
      let total = record_pairs-total (u64 (s.epoch + 1)) s.update_buffer s.directory in
      elim (Option-cases (record_pairs lib (u64 (s.epoch + 1)) s.update_buffer s.directory)) [
        | inl stop ↦ rw (is_some, stop) (rw stop at total)
        | inr (found, run) ↦ rw (is_some, run) (rw run at total)
      ]

  -- Get and GetCommitment can apply the buffer, or find nothing to apply, exactly if the server is clean
  -- or no user in the buffer is longer than 24 bytes; otherwise they panic.
  pub flush-total :
      (s : OptiksServer lib)
      → is_some (flush lib s) ≡ (not s.root_commitment_is_dirty || all_fit s.update_buffer)
  unfolding flush is_some
  flush-total s = elim (Bool-cases s.root_commitment_is_dirty) [
    | inl dirty ↦ rw dirty (apply_updates-total s)
    | inr clean ↦ rw clean refl
  ]
