-- ===== src/Verkle/Ingest/Resume.antt =====
-- After a block was ingested, a new run goes on with the next one.
use smaran.Prelude.{
  ℕ, ◌+◌, ◌%◌, ◌^◌, ◌<◌, ◌≤◌, ◌≡◌, refl, sym, ap, ◌∙◌, arith, Bool, true, false, not,
}
use smaran.Prelude.{
  List, [], ◌∷◌, ◌++◌, take, Option, some, none, ltb, bytes_eq, if◌then◌else◌, value_or, ◌⊎◌,
  Option-cases, inl, inr,
}
use native.Mathlib.Nat.{mod-eq_of_lt}
use smaran.Prelude.{take-length, bytes_eq_refl}
use smaran.Bytes.{be_bytes}
use smaran.Bytes.Laws.{be_value-be_bytes, length-be_bytes}
use smaran.Dataset.{Entry}
use smaran.Keys.{GoVerkle}
use smaran.Meta.{key_last}
use smaran.Verkle.{PointCodec}
use smaran.Verkle.Commit.{FieldSub, commit}
use smaran.Verkle.Flush.{SerializedNode, batch_serialize}
use smaran.Verkle.Dirty.{serialize_dirty_paths}
use smaran.Verkle.Store.{
  OrderedStore, save_nodes, save_block_state, versioned_node_key, versioned_node_prefix, block_key,
}
use smaran.Verkle.Ingest.{
  BatchWriter, apply_entries, node_resolver, BlockState, IngestState, Progress, done, stopped,
  save_failed, then_do, flush, commit_block, ingest_block,
}
use smaran.Verkle.Ingest.Loop.{stored_block, get_last_processed, resume_start}

-- What a key has after some puts, in their order.
unfoldable pub after_puts : List (List ℕ × List ℕ) → List ℕ → Option (List ℕ) → Option (List ℕ)
after_puts [] k old = old
after_puts ((j, v) ∷ ws) k old = after_puts ws k (if bytes_eq j k then some v else old)

-- What Commit of a batch documents: every put is made, the later ones over the earlier.
unfoldable pub WriterLaws : (s : OrderedStore) → BatchWriter s → Type 0
WriterLaws s w =
    (ws : List (List ℕ × List ℕ)) (db : s.Db) (k : List ℕ)
    → (w.write_batch ws db).0 ≡ true
    → s.fetch (w.write_batch ws db).1 k ≡ after_puts ws k (s.fetch db k)

after_puts-append :
    (xs ys : List (List ℕ × List ℕ)) (k : List ℕ) (old : Option (List ℕ))
    → after_puts (xs ++ ys) k old ≡ after_puts ys k (after_puts xs k old)
unfolding after_puts
after_puts-append [] ys k old = refl
after_puts-append ((j, v) ∷ xs) ys k old =
    after_puts-append xs ys k (if bytes_eq j k then some v else old)

-- The nodes are under other keys than the last block.
after_puts-save_nodes :
    (nodes : List SerializedNode) (block : ℕ) (old : Option (List ℕ))
    → after_puts (save_nodes nodes block) key_last old ≡ old
unfolding after_puts save_nodes versioned_node_key versioned_node_prefix bytes_eq
after_puts-save_nodes [] block old = refl
after_puts-save_nodes ((path, bytes) ∷ nodes) block old = after_puts-save_nodes nodes block old

last_of :
    (block : ℕ) (rc : List ℕ) (old : Option (List ℕ))
    → after_puts ((block_key block, rc) ∷ (key_last, be_bytes 8 block) ∷ []) key_last old
      ≡ some (be_bytes 8 block)
unfolding after_puts
last_of block rc old = rw (bytes_eq_refl key_last) refl

after_puts-save_block_state :
    (nodes : List SerializedNode) (block : ℕ) (rc : List ℕ) (old : Option (List ℕ))
    → after_puts (save_block_state nodes block rc) key_last old ≡ some (be_bytes 8 block)
unfolding save_block_state
after_puts-save_block_state nodes block rc old =
    after_puts-append (save_nodes nodes block) _ key_last old
    ∙ last_of block rc (after_puts (save_nodes nodes block) key_last old)

stored_block-be_bytes :
    (block : ℕ) → block < 2 ^ 64 → stored_block (some (be_bytes 8 block)) ≡ some block
unfolding stored_block
stored_block-be_bytes block fits =
    let len = length-be_bytes 8 block in
    let enough : ltb 8 8 ≡ false = refl in
    let whole : take 8 (be_bytes 8 block) ≡ be_bytes 8 block =
      ap (λ (n : ℕ). take n (be_bytes 8 block)) (sym len) ∙ take-length (be_bytes 8 block) in
    rw (len, whole) (ap some (be_value-be_bytes 8 block fits))

resume_start-next :
    (start last : ℕ)
    → last + 1 < 2 ^ 64
    → start ≤ last + 1
    → resume_start start (some last) ≡ last + 1
unfolding resume_start
resume_start-next start last fits before =
    let whole : (last + 1) % 2 ^ 64 ≡ last + 1 = mod-eq_of_lt fits in ground (arith, whole)

-- A result past the two tests of a save.
passed {ℓ} :
    {A : Type ℓ} (b c : Bool) (x : A) (y : Progress A) (st : A)
    → (if not b then stopped save_failed else if c then done x else y) ≡ done st
    → (b ≡ true) × ((x ≡ st) ⊎ (y ≡ done st))
passed false c x y st h = absurd (cc)
passed true true x y st h = (refl, inl (cc))
passed true false x y st h = (refl, inr h)

then_do-done {ℓ κ} :
    {A : Type ℓ} {B : Type κ} (a : Progress A) (g : A → Progress B) (b : B)
    → then_do a g ≡ done b
    → (x : A) × (g x ≡ done b)
then_do-done (done x) g b h = (x, h)
then_do-done (stopped e) g b h = absurd (cc)

module _ (pc : PointCodec) (f : FieldSub pc.crypto) (gv : GoVerkle) (s : OrderedStore)
    (w : BatchWriter s) where
  -- A flush that ends without an error has written its nodes.
  flush-done :
      (block : ℕ) (st st' : IngestState pc f gv s w)
      → flush pc f gv s w block st ≡ done st'
      → ((w.write_batch (save_nodes (value_or [] (batch_serialize pc st.root [])) block) st.db).0
          ≡ true)
        × (st'.db
            ≡ (w.write_batch
                (save_nodes (value_or [] (batch_serialize pc st.root [])) block)
                st.db).1)
  unfolding flush
  flush-done block st st' h = ground arith

  flush-last :
      (block : ℕ) (st st' : IngestState pc f gv s w)
      → WriterLaws s w
      → flush pc f gv s w block st ≡ done st'
      → s.fetch st'.db key_last ≡ s.fetch st.db key_last
  unfolding WriterLaws
  flush-last block st st' laws h =
      let nodes = value_or [] (batch_serialize pc st.root []) in
      let (saved, at) = flush-done block st st' h in
      ap (λ db. s.fetch db key_last) at
      ∙ laws (save_nodes nodes block) st.db key_last saved
      ∙ after_puts-save_nodes nodes block (s.fetch st.db key_last)

  -- The state that commit_block makes before a flush.
  abbrev saved_state :
      ℕ → BlockState pc gv → s.Db → ℕ → List SerializedNode → List ℕ → IngestState pc f gv s w
  saved_state block bs db since nodes rc = record {
    root = commit pc f bs.root;
    cache = bs.cache;
    db = (w.write_batch (save_block_state nodes block rc) db).1;
    blocks_since_flush = since + 1;
  }

  commit_block-done :
      (flush_every block : ℕ) (bs : BlockState pc gv) (db : s.Db) (since : ℕ)
      (st' : IngestState pc f gv s w)
      → (nodes : List SerializedNode) (rc : List ℕ)
      → serialize_dirty_paths pc (commit pc f bs.root) bs.stems ≡ some (nodes, rc)
      → commit_block pc f gv s w flush_every block bs db since ≡ done st'
      → ((w.write_batch (save_block_state nodes block rc) db).0 ≡ true)
        × ((saved_state block bs db since nodes rc ≡ st')
            ⊎ (flush pc f gv s w block (saved_state block bs db since nodes rc) ≡ done st'))
  unfolding commit_block
  commit_block-done flush_every block bs db since st' nodes rc e h =
      passed (w.write_batch (save_block_state nodes block rc) db).0 (ltb (since + 1) flush_every) _
        _ st' (rw (commit_block, e) at h)

  commit_block-none :
      (flush_every block : ℕ) (bs : BlockState pc gv) (db : s.Db) (since : ℕ)
      (st' : IngestState pc f gv s w)
      → serialize_dirty_paths pc (commit pc f bs.root) bs.stems ≡ none
      → ¬ (commit_block pc f gv s w flush_every block bs db since ≡ done st')
  unfolding commit_block
  commit_block-none flush_every block bs db since st' e h =
      let wrong = (rw (commit_block, e) at h) in absurd (cc)

  commit_block-last :
      (flush_every block : ℕ) (bs : BlockState pc gv) (db : s.Db) (since : ℕ)
      (st' : IngestState pc f gv s w)
      → WriterLaws s w
      → commit_block pc f gv s w flush_every block bs db since ≡ done st'
      → s.fetch st'.db key_last ≡ some (be_bytes 8 block)
  unfolding WriterLaws
  commit_block-last flush_every block bs db since st' laws h =
      elim (Option-cases (serialize_dirty_paths pc (commit pc f bs.root) bs.stems)) [
        | inl e ↦ absurd (commit_block-none flush_every block bs db since st' e h)
        | inr ((nodes, rc), e) ↦
            let (saved, choice) =
              commit_block-done flush_every block bs db since st' nodes rc e h in
            let written =
              laws (save_block_state nodes block rc) db key_last saved
              ∙ after_puts-save_block_state nodes block rc (s.fetch db key_last) in
            elim choice [
              | inl same ↦
                  ap (λ (st : IngestState pc f gv s w). s.fetch st.db key_last) (sym same) ∙ written
              | inr flushed ↦
                  flush-last block (saved_state block bs db since nodes rc) st' laws flushed
                  ∙ written
            ]
      ]

  -- For a store whose batches make their puts, and a block number below 2 ^ 64 - 1: when the callback of
  -- IterateRange ends a block without an error, with or without a full flush, that block is the last one
  -- processed, and a run that starts at or before the next block goes on with the next block.
  pub ingest_block-resume :
      (flush_every block start : ℕ) (es : List Entry) (st st' : IngestState pc f gv s w)
      → WriterLaws s w
      → block + 1 < 2 ^ 64
      → start ≤ block + 1
      → ingest_block pc f gv s w flush_every block es st ≡ done st'
      → (get_last_processed s st'.db ≡ some block)
        × (resume_start start (get_last_processed s st'.db) ≡ block + 1)
  unfolding ingest_block
  ingest_block-resume flush_every block start es st st' laws fits before h =
      let (bs, ran) =
        then_do-done
          (apply_entries pc gv (some (node_resolver s st.db)) es
            (record { root = st.root; cache = st.cache; stems = [] }))
          (λ bs. commit_block pc f gv s w flush_every block bs st.db st.blocks_since_flush) st' h in
      let last =
        ap stored_block
          (commit_block-last flush_every block bs st.db st.blocks_since_flush st' laws ran)
        ∙ stored_block-be_bytes block (omega arith) in
      (last, ap (resume_start start) last ∙ resume_start-next start block fits before)
