-- ===== src/Optiks/Update/History.antt =====
-- The keys of one user, in the order in which they were put: those in the maps and those that wait.
use smaran.Prelude.{ℕ, ◌+◌, ◌≡◌, refl, ap, ◌∙◌, sym, arith, true, ◌&&◌}
use smaran.Prelude.{Option, some, none, List, [], ◌∷◌, ◌++◌, length, length-append, ltb, leb}
use smaran.Prelude.{
  if◌then◌else◌, value_or, bytes_eq, bytes_eq_iff, Option-cases, Bool-cases, inl, inr,
}
use mathlib.Core.List.{append_assoc, append-nil}
use smaran.Optiks.Trie.{TrieLib}
use smaran.Optiks.Update.{
  KvPair, TrieUpdate, Directory, u64, record_key, next_version, OptiksServer,
}
use smaran.Optiks.Update.Total.{is_some, all_fit, apply_updates-total}
use smaran.Prelude.{false, not}
use smaran.Optiks.Update.{record_pairs, apply_updates, put, flush}

abbrev pub as_list : Option (List ℕ) → List (List ℕ)
as_list none = []
as_list (some k) = k ∷ []

-- The archived keys of a user and the current one.
unfoldable pub history : List ℕ → Directory → List (List ℕ)
history u d = value_or [] (d.old_keys u) ++ as_list (d.current_key u)

-- The keys that the buffer holds for a user.
unfoldable pub keys_of : List ℕ → List KvPair → List (List ℕ)
keys_of u [] = []
keys_of u (p ∷ ps) = (if bytes_eq p.user u then p.key ∷ [] else []) ++ keys_of u ps

abbrev pub version_of : List (List ℕ) → Option ℕ
version_of [] = none
version_of (k ∷ ks) = some (u64 (length (k ∷ ks)))

next_of :
    (ks : List (List ℕ)) (k : List ℕ) (v : Option ℕ)
    → v ≡ version_of ks
    → some (next_version v) ≡ version_of (ks ++ k ∷ [])
next_of [] k v h = rw h
next_of (x ∷ ks) k v h = rw (h, length-append ks (k ∷ [])) (ap some (omega arith))

module _ (u : List ℕ) where
  history-record_key :
      (epoch : ℕ) (p : KvPair) (d : Directory)
      → history u (record_key epoch p d)
        ≡ history u d ++ (if bytes_eq p.user u then p.key ∷ [] else [])
  unfolding history record_key
  history-record_key epoch p d = ground (
    arith,
    bytes_eq_iff p.user u,
    append-nil (value_or [] (d.old_keys u)),
    append-nil (value_or [] (d.old_keys u) ++ as_list (d.current_key u)),
  )

  version-record_key :
      (epoch : ℕ) (p : KvPair) (d : Directory)
      → d.current_versions u ≡ version_of (history u d)
      → (record_key epoch p d).current_versions u ≡ version_of (history u (record_key epoch p d))
  unfolding record_key
  version-record_key epoch p d h =
      rw (history-record_key epoch p d) (elim (Bool-cases (bytes_eq p.user u)) [
        | inl e ↦
            let same : p.user ≡ u = (bytes_eq_iff p.user u).0 e in
            rw e (
              ap (λ w. some (next_version (d.current_versions w))) same
              ∙ next_of (history u d) p.key (d.current_versions u) h)
        | inr e ↦ rw (e, append-nil (history u d)) h
      ])

keys_of-append :
    (u : List ℕ) (ps qs : List KvPair) → keys_of u (ps ++ qs) ≡ keys_of u ps ++ keys_of u qs
unfolding keys_of
keys_of-append u [] qs = refl
keys_of-append u (p ∷ ps) qs =
    ap (◌++◌ (if bytes_eq p.user u then p.key ∷ [] else [])) (keys_of-append u ps qs)
    ∙ sym
        (append_assoc (if bytes_eq p.user u then p.key ∷ [] else []) (keys_of u ps) (keys_of u qs))

-- A run over a buffer starts with one over its tail, into the same maps.
record_pairs_tail :
    (lib : TrieLib) (epoch : ℕ) (p : KvPair) (ps : List KvPair) (d e : Directory)
    (us : List TrieUpdate)
    → record_pairs lib epoch (p ∷ ps) d ≡ some (e, us)
    → (vs : List TrieUpdate) × (record_pairs lib epoch ps (record_key epoch p d) ≡ some (e, vs))
unfolding record_pairs
record_pairs_tail lib epoch p ps d e us h =
    elim (Option-cases (record_pairs lib epoch ps (record_key epoch p d))) [
      | inl stop ↦ absurd (ground arith)
      | inr ((f, vs), run) ↦ (vs, ground arith)
    ]

module _ (lib : TrieLib) (u : List ℕ) where
  record_pairs-history :
      (epoch : ℕ) (ps : List KvPair) (d e : Directory) (us : List TrieUpdate)
      → record_pairs lib epoch ps d ≡ some (e, us)
      → history u e ≡ history u d ++ keys_of u ps
  unfolding record_pairs keys_of
  record_pairs-history epoch [] d e us h =
      let same : d ≡ e = cc in rw (← same) (sym (append-nil (history u d)))
  record_pairs-history epoch (p ∷ ps) d e us h =
      let (vs, run) = record_pairs_tail lib epoch p ps d e us h in
      record_pairs-history epoch ps (record_key epoch p d) e vs run
      ∙ rw (history-record_key u epoch p d) (append_assoc (history u d) _ (keys_of u ps))

  record_pairs-version :
      (epoch : ℕ) (ps : List KvPair) (d e : Directory) (us : List TrieUpdate)
      → record_pairs lib epoch ps d ≡ some (e, us)
      → d.current_versions u ≡ version_of (history u d)
      → e.current_versions u ≡ version_of (history u e)
  unfolding record_pairs
  record_pairs-version epoch [] d e us h v = let same : d ≡ e = cc in rw same at v
  record_pairs-version epoch (p ∷ ps) d e us h v =
      let (vs, run) = record_pairs_tail lib epoch p ps d e us h in
      record_pairs-version epoch ps (record_key epoch p d) e vs run
        (version-record_key u epoch p d v)

  -- All keys that a user was given: those applied, then those in the buffer.
  pub full_history : OptiksServer lib → List (List ℕ)
  unfolding history keys_of
  full_history s = history u s.directory ++ keys_of u s.update_buffer

  -- When applyUpdates does not panic, the history of the user is what it was with the keys in the
  -- buffer, and the buffer is empty.
  pub apply_updates-history :
      (s t : OptiksServer lib)
      → apply_updates lib s ≡ some t
      → (full_history t ≡ full_history s) × (t.update_buffer ≡ [])
  unfolding apply_updates full_history
  apply_updates-history s t h =
      elim (Option-cases (record_pairs lib (u64 (s.epoch + 1)) s.update_buffer s.directory)) [
        | inl stop ↦ absurd (ground arith)
        | inr ((e, us), run) ↦
            let kept =
              record_pairs-history (u64 (s.epoch + 1)) s.update_buffer s.directory e us run in
            let empty : t.update_buffer ≡ [] = ground arith in
            let maps : t.directory ≡ e = ground arith in
            (rw (empty, maps) (unfold keys_of in append-nil (history u e) ∙ kept), empty)
      ]

  put-history_some :
      (s t : OptiksServer lib) (user key : List ℕ)
      → put lib s user key ≡ some t
      → full_history t ≡ full_history s ++ (if bytes_eq user u then key ∷ [] else [])
  unfolding put
  put-history_some s t user key h =
      elim (Bool-cases
        (ltb 0 s.batch_size && leb s.batch_size (length (s.update_buffer ++ pair ∷ [])))) [
          | inl full ↦ (apply_updates-history waiting t (rw full at h)).0 ∙ longer
          | inr room ↦ let same : waiting ≡ t = cc (rw room at h) in rw (← same) longer
        ]
    where
      pair : KvPair
      pair = record { user = user; key = key }

      waiting : OptiksServer lib
      waiting = record s {
        update_buffer = s.update_buffer ++ pair ∷ [];
        root_commitment_is_dirty = true;
      }

      longer : full_history waiting ≡ full_history s ++ (if bytes_eq user u then key ∷ [] else [])
      longer =
          unfold full_history keys_of in
          rw
            (
              keys_of-append u s.update_buffer (pair ∷ []),
              append-nil (if bytes_eq user u then key ∷ [] else []),
            )
            (sym (append_assoc (history u s.directory) (keys_of u s.update_buffer) _))

  -- A Put that panics has filled the buffer, and the buffer has a user that is too long.
  put-none :
      (s : OptiksServer lib) (user key : List ℕ)
      → put lib s user key ≡ none
      → (ltb 0 s.batch_size
          && leb s.batch_size (length (s.update_buffer ++ record { user = user; key = key } ∷ []))
          && not (all_fit (s.update_buffer ++ record { user = user; key = key } ∷ [])))
        ≡ true
  unfolding put
  put-none s user key h =
      elim (Bool-cases (ltb 0 s.batch_size && leb s.batch_size (length buffer))) [
        | inl full ↦
            let total = apply_updates-total lib waiting in
            let stop : apply_updates lib waiting ≡ none = rw full at h in
            let misfit : false ≡ all_fit buffer = unfold is_some in rw stop at total in
            ground (arith, full, misfit)
        | inr room ↦ absurd (some_none (rw room at h))
      ]
    where
      buffer : List KvPair
      buffer = s.update_buffer ++ record { user = user; key = key } ∷ []

      waiting : OptiksServer lib
      waiting = record s { update_buffer = buffer; root_commitment_is_dirty = true }

      some_none : some waiting ≡ none → ⊥
      some_none e = cc

  -- Unless it fills the buffer while a user of the buffer is longer than 24 bytes, Put does not panic, and
  -- it adds the key to the history of its user and changes the history of no other, also when it makes
  -- the server apply its buffer.
  pub put-history :
      (s : OptiksServer lib) (user key : List ℕ)
      → (ltb 0 s.batch_size
          && leb s.batch_size (length (s.update_buffer ++ record { user = user; key = key } ∷ []))
          && not (all_fit (s.update_buffer ++ record { user = user; key = key } ∷ [])))
        ≡ false
      → (t : OptiksServer lib) × (put lib s user key ≡ some t)
        × (full_history t ≡ full_history s ++ (if bytes_eq user u then key ∷ [] else []))
  put-history s user key fits = elim (Option-cases (put lib s user key)) [
    | inl e ↦ absurd (ground (arith, put-none s user key e, fits))
    | inr (t, e) ↦ (t, e, put-history_some s t user key e)
  ]

  -- The flush with which Get and GetCommitment begin does not change the history, if it does not panic.
  pub flush-history :
      (s t : OptiksServer lib) → flush lib s ≡ some t → full_history t ≡ full_history s
  unfolding flush
  flush-history s t h = elim (Bool-cases s.root_commitment_is_dirty) [
    | inl dirty ↦ (apply_updates-history s t (rw dirty at h)).0
    | inr clean ↦ let same : s ≡ t = cc (rw clean at h) in ap full_history (sym same)
  ]
