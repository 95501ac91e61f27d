-- ===== src/Verkle/Store/Latest.antt =====
-- Resolving a node finds the version that the last block up to the given one has written.
use smaran.Prelude.{
  ℕ, ◌+◌, ◌%◌, ◌^◌, ◌<◌, ◌≤◌, ◌≡◌, refl, sym, ap, ◌∙◌, arith, true, false, Bool-cases, inl, inr,
}
use smaran.Prelude.{
  List, [], ◌∷◌, ◌++◌, length, length-append, take, take-take, take-append, drop, get_or, ltb,
  ltb_of_lt, ltb_of_le, some, none, Option-cases, bytes_eq_refl, value_or, ◌==◌, ==_iff,
}
use native.Mathlib.Nat.{mod-eq_of_lt}
use smaran.Bytes.{be_bytes}
use smaran.Verkle.Store.{
  OrderedStore, bytes_lt, versioned_node_prefix, versioned_node_key, at_prefix,
  resolve_node_at_block,
}
use smaran.Verkle.Store.Order.{prefix_between, bytes_lt-prefix, bytes_lt-be_bytes}

-- Keys of two paths that agree on the prefix of one belong to one path.
path_of_key :
    (p path : List ℕ) (c : ℕ)
    → length p < 256
    → length path < 256
    → take (length (versioned_node_prefix path)) (versioned_node_key p c)
      ≡ versioned_node_prefix path
    → p ≡ path
unfolding versioned_node_prefix versioned_node_key
path_of_key p path c a b e =
    let size : length p % 256 ≡ length path % 256 = ap (λ (s : List ℕ). get_or s 3 0) e in
    let same : length p ≡ length path = omega arith in
    sym (take-append p (be_bytes 8 c) (length path) same) ∙ ap (drop 4) e

pub bytes_lt-versioned_node_key :
    (path : List ℕ) (a b : ℕ)
    → a < 256 ^ 8
    → b < 256 ^ 8
    → bytes_lt (versioned_node_key path a) (versioned_node_key path b) ≡ ltb a b
unfolding versioned_node_key
bytes_lt-versioned_node_key path a b ha hb =
    bytes_lt-prefix (versioned_node_prefix path) (be_bytes 8 a) (be_bytes 8 b)
    ∙ bytes_lt-be_bytes 8 a b ha hb

at_prefix-versioned_node_key :
    (path bytes : List ℕ) (b : ℕ)
    → at_prefix (versioned_node_prefix path) (some (versioned_node_key path b, bytes)) ≡ some bytes
unfolding at_prefix versioned_node_key
at_prefix-versioned_node_key path bytes b =
    let prefix = versioned_node_prefix path in
    let long =
      ltb_of_le (length (prefix ++ be_bytes 8 b)) (length prefix)
        (omega (arith, length-append prefix (be_bytes 8 b))) in
    rw (long, take-append prefix (be_bytes 8 b) (length prefix) refl, bytes_eq_refl prefix) refl

starts_vn :
    (path k : List ℕ)
    → take (length (versioned_node_prefix path)) k ≡ versioned_node_prefix path
    → take 3 k ≡ 118 ∷ 110 ∷ 58 ∷ []
unfolding versioned_node_prefix
starts_vn path k on =
    sym (take-take 3 (length (versioned_node_prefix path)) k (omega arith)) ∙ ap (take 3) on

later : (c b n : ℕ) → ltb c b ≡ false → ltb c (n + 1) ≡ true → (c == b) ≡ false → (b < c) × (c ≤ n)
later c b n above below other = (ground (arith, ==_iff c b), ground arith)

module _ (s : OrderedStore) (db : s.Db) where
  -- Each key with the prefix of the nodes is that of a path of less than 256 bytes and a 64-bit block.
  abbrev pub IsVersioned : Type 0
  IsVersioned =
      (k v : List ℕ)
      → s.fetch db k ≡ some v
      → take 3 k ≡ 118 ∷ 110 ∷ 58 ∷ []
      → (p : List ℕ) × (c : ℕ) × (k ≡ versioned_node_key p c) × (length p < 256) × (c < 256 ^ 8)

  -- A stored key from that of a block on and below that of the next block after `n` is the key of the block, if
  -- no block between has written the node.
  between-latest :
      (path bytes k v : List ℕ) (b n : ℕ)
      → IsVersioned
      → length path < 256
      → b ≤ n
      → n + 1 < 256 ^ 8
      → s.fetch db (versioned_node_key path b) ≡ some bytes
      → ((c : ℕ) → b < c → c ≤ n → s.fetch db (versioned_node_key path c) ≡ none)
      → s.fetch db k ≡ some v
      → bytes_lt k (versioned_node_key path b) ≡ false
      → bytes_lt k (versioned_node_key path (n + 1)) ≡ true
      → (k ≡ versioned_node_key path b) × (v ≡ bytes)
  between-latest path bytes k v b n versioned short le fits stored newest at low high =
      let kb = versioned_node_key path b in
      let prefix = versioned_node_prefix path in
      let on : take (length prefix) k ≡ prefix =
        unfold versioned_node_key in
        prefix_between prefix (be_bytes 8 b) (be_bytes 8 (n + 1)) k low high in
      let (p, c, ek, lp, lc) = versioned k v at (starts_vn path k on) in
      let same_path = path_of_key p path c lp short (ap (take (length prefix)) (sym ek) ∙ on) in
      let key = ek ∙ ap (λ (q : List ℕ). versioned_node_key q c) same_path in
      let lb : b < 256 ^ 8 = omega arith in
      let above : ltb c b ≡ false =
        sym (bytes_lt-versioned_node_key path c b lc lb)
        ∙ (ap (λ (x : List ℕ). bytes_lt x kb) (sym key) ∙ low) in
      let below : ltb c (n + 1) ≡ true =
        sym (bytes_lt-versioned_node_key path c (n + 1) lc fits)
        ∙ (ap (λ (x : List ℕ). bytes_lt x (versioned_node_key path (n + 1))) (sym key) ∙ high) in
      elim (Bool-cases (c == b)) [
        | inl same ↦
            let here = key ∙ ap (versioned_node_key path) ((==_iff c b).0 same) in
            (here, ap (value_or []) (sym at ∙ (ap (s.fetch db) here ∙ stored)))
        | inr other ↦
            let (newer, older) = later c b n above below other in
            let gone = ap (s.fetch db) key ∙ newest c newer older in absurd (cc)
      ]

  -- What SeekLT finds below the bound of a block.
  seek_lt-latest :
      (path bytes : List ℕ) (b n : ℕ)
      → IsVersioned
      → length path < 256
      → b ≤ n
      → n + 1 < 256 ^ 8
      → s.fetch db (versioned_node_key path b) ≡ some bytes
      → ((c : ℕ) → b < c → c ≤ n → s.fetch db (versioned_node_key path c) ≡ none)
      → s.seek_lt db (versioned_node_key path (n + 1)) ≡ some (versioned_node_key path b, bytes)
  seek_lt-latest path bytes b n versioned short le fits stored newest =
      let bound = versioned_node_key path (n + 1) in
      let kb = versioned_node_key path b in
      let below : bytes_lt kb bound ≡ true =
        bytes_lt-versioned_node_key path b (n + 1) (omega arith) fits
        ∙ ltb_of_lt b (n + 1) (omega arith) in
      elim (Option-cases (s.seek_lt db bound)) [
        | inl nothing ↦ let gone = s.seek_lt-none db bound kb nothing below in absurd (cc)
        | inr ((k, v), e) ↦
            let (at, high, between) = s.seek_lt-some db bound k v e in
            let low : bytes_lt k kb ≡ false = elim (Bool-cases (bytes_lt k kb)) [
              | inl less ↦ let gone = between kb below less in absurd (cc)
              | inr not_less ↦ not_less
            ] in
            let (here, same) =
              between-latest path bytes k v b n versioned short le fits stored newest at low high in
            e ∙ rw (here, same) refl
      ]

  pub resolve_node_at_block-stored :
      (path bytes : List ℕ) (b n : ℕ)
      → IsVersioned
      → length path < 256
      → b ≤ n
      → n + 1 < 256 ^ 8
      → s.fetch db (versioned_node_key path b) ≡ some bytes
      → ((c : ℕ) → b < c → c ≤ n → s.fetch db (versioned_node_key path c) ≡ none)
      → resolve_node_at_block s db path n ≡ some bytes
  unfolding resolve_node_at_block
  resolve_node_at_block-stored path bytes b n versioned short le fits stored newest =
      let bound : (n + 1) % 2 ^ 64 ≡ n + 1 = mod-eq_of_lt fits in
      rw (bound, seek_lt-latest path bytes b n versioned short le fits stored newest)
        (at_prefix-versioned_node_key path bytes b)
