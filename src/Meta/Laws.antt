-- ===== src/Meta/Laws.antt =====
-- What is put comes back, and the three kinds of records do not touch each other.
use smaran.Prelude.{ℕ, ◌^◌, ◌<◌, ◌≡◌, refl, sym, ap, ◌∙◌, arith, true, false, some, List}
use smaran.Prelude.{
  length, drop, ◌==◌, ==_iff, bytes_eq, bytes_eq_iff, bytes_eq_refl, if◌then◌else◌, Bool-cases, inl,
  inr,
}
use mathlib.Core.Option
use smaran.Bytes.{be_bytes, be_value}
use smaran.Bytes.Laws.{be_value-be_bytes, length-be_bytes}
use smaran.Meta.{Database, root_key, encode_u64, decode_u64, key_last, key_start}
use smaran.Meta.{put_root, get_root, put_last, get_last, get_start}

bytes_eq-root_key :
    (block other : ℕ)
    → block < 256 ^ 8
    → other < 256 ^ 8
    → bytes_eq (root_key block) (root_key other) ≡ (block == other)
bytes_eq-root_key block other hb ho = elim (Bool-cases (block == other)) [
  | inl e ↦
      let same : block ≡ other = (==_iff block other).0 e in
      rw (same, bytes_eq_refl (root_key other)) (ground arith)
  | inr e ↦ elim (Bool-cases (bytes_eq (root_key block) (root_key other))) [
    | inl eq_keys ↦
        let keys : root_key block ≡ root_key other =
          (bytes_eq_iff (root_key block) (root_key other)).0 eq_keys in
        let tails : be_bytes 8 block ≡ be_bytes 8 other = unfold root_key in ap (drop 10) keys in
        let same : block ≡ other =
          sym (be_value-be_bytes 8 block hb) ∙ ap be_value tails ∙ be_value-be_bytes 8 other ho in
        absurd (ground arith)
    | inr differ ↦ rw (differ, e) refl
  ]
]

root_key-last : (block : ℕ) → bytes_eq (root_key block) key_last ≡ false
unfolding root_key bytes_eq
root_key-last block = refl

root_key-start : (block : ℕ) → bytes_eq (root_key block) key_start ≡ false
unfolding root_key bytes_eq
root_key-start block = refl

last-root_key : (block : ℕ) → bytes_eq key_last (root_key block) ≡ false
unfolding root_key bytes_eq
last-root_key block = refl

decoded : (block : ℕ) → block < 256 ^ 8 → decode_u64 (be_bytes 8 block) ≡ some block
unfolding decode_u64
decoded block h =
    let eight : (length (be_bytes 8 block) == 8) ≡ true = rw (length-be_bytes 8 block) refl in
    rw eight (ap some (be_value-be_bytes 8 block h))

module _ (db : Database) where
  -- After the root of a block was put, that block has the root, every other block the root that it had,
  -- and the last and the start block are the same; for block numbers below 256 ^ 8 and a root of 32 bytes.
  pub get_root-put_root :
      (s t : db.Store) (block other : ℕ) (root : List ℕ)
      → block < 256 ^ 8
      → other < 256 ^ 8
      → length root ≡ 32
      → put_root db s block root ≡ some t
      → (get_root db t other ≡ (if block == other then some root else get_root db s other))
        × (get_last db t ≡ get_last db s)
        × (get_start db t ≡ get_start db s)
  unfolding put_root get_root get_last get_start
  get_root-put_root s t block other root hb ho hr h =
      let at : db.get t (root_key other)
          ≡ (if block == other then some root else db.get s (root_key other)) =
        db.get-put s t (root_key block) root (root_key other) h
        ∙ ap (λ b. if b then some root else db.get s (root_key other))
            (bytes_eq-root_key block other hb ho) in
      let last : db.get t key_last ≡ db.get s key_last =
        db.get-put s t (root_key block) root key_last h
        ∙ ap (λ b. if b then some root else db.get s key_last) (root_key-last block) in
      let start : db.get t key_start ≡ db.get s key_start =
        db.get-put s t (root_key block) root key_start h
        ∙ ap (λ b. if b then some root else db.get s key_start) (root_key-start block) in
      (
        elim (Bool-cases (block == other)) [
          | inl e ↦ rw (at, e) (ap some (db.bytes_to_hash_whole root hr))
          | inr e ↦ rw (at, e) refl
        ],
        rw last refl,
        rw start refl,
      )

  -- The last block that was put is the one that is read, and roots and the start block are the same; for a
  -- block number below 256 ^ 8.
  pub get_last-put_last :
      (s t : db.Store) (block other : ℕ)
      → block < 256 ^ 8
      → put_last db s block ≡ some t
      → (get_last db t ≡ some block)
        × (get_root db t other ≡ get_root db s other)
        × (get_start db t ≡ get_start db s)
  unfolding put_last get_root get_last get_start encode_u64 bytes_eq Option.bind
  get_last-put_last s t block other hb h =
      let last : db.get t key_last ≡ some (be_bytes 8 block) =
        db.get-put s t key_last (be_bytes 8 block) key_last h in
      let root : db.get t (root_key other) ≡ db.get s (root_key other) =
        db.get-put s t key_last (be_bytes 8 block) (root_key other) h
        ∙ ap (λ b. if b then some (be_bytes 8 block) else db.get s (root_key other))
            (last-root_key other) in
      let start : db.get t key_start ≡ db.get s key_start =
        db.get-put s t key_last (be_bytes 8 block) key_start h in
      (rw last (decoded block hb), rw root refl, rw start refl)
