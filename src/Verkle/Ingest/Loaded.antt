-- ===== src/Verkle/Ingest/Loaded.antt =====
-- The loop over the entries on a trie of which no node has to be loaded.
use smaran.Prelude.{ℕ, ◌≡◌, ◌^◌, ◌<◌, refl, sym, ◌∙◌, arith, Option, some, none}
use smaran.Prelude.{List, [], ◌∷◌, length, All, Map, inl, inr, false, leb, ◌==◌, Bool-cases}
use smaran.Bytes.{be_value}
use smaran.Dataset.{Entry}
use smaran.Keys.{GoVerkle}
use smaran.Keys.Cache.{IsCache, get_tree_key_for_basic_data-IsCache}
use smaran.Keys.RoundTrip.{unpack-pack_basic_data}
use smaran.Verkle.{PointCodec, VerkleNode}
use smaran.Verkle.Trie.{Resolver, Answer, ok, failed, get}
use smaran.Verkle.Trie.Refines.{StandsFor, insert-StandsFor, delete-StandsFor, map_step}
use smaran.Verkle.Trie.Loaded.{Same, get-Same, insert-Same, delete-Same}
use smaran.Verkle.Ingest.{BlockState, set_balance, apply_entry, apply_entries}
use smaran.Verkle.Ingest.Entries.{Fits, account_key, change_of, apply_entry-StandsFor}
use smaran.Verkle.Ingest.Balances.{read_balance, balance_of}

Same-ok {ℓ} : {A : Type ℓ} (a b : Answer A) (x : A) → Same a b → a ≡ ok x → b ≡ ok x
Same-ok a b x (inl e) h = absurd (ok_failed (sym h ∙ e))
  where
    ok_failed : ok x ≡ failed → ⊥
    ok_failed e = cc
Same-ok a b x (inr e) h = sym e ∙ h

module _ (pc : PointCodec) (gv : GoVerkle) (r : Option Resolver) where
  abbrev Node : Type 0
  Node = VerkleNode pc.crypto.Point

  set_balance-loaded :
      (key : List ℕ) (n : ℕ) (root : Node) (m : Map (List ℕ))
      → length key ≡ 32
      → n < 2 ^ 128
      → StandsFor pc none root m
      → set_balance pc gv r key n root ≡ set_balance pc gv none key n root
  unfolding set_balance
  set_balance-loaded key n root m len fits h = elim (Bool-cases (n == 0)) [
    | inl e ↦
        let (root', run, _) = delete-StandsFor pc none key root m len h in
        let same = Same-ok _ _ _ (delete-Same pc r 31 root key) run in rw (e, run, same) refl
    | inr e ↦
        let (val, made, _, _, _) = unpack-pack_basic_data n fits in
        let small : leb (2 ^ 128) n ≡ false = ground arith in
        let (root', run, _) = insert-StandsFor pc none key val root m len h in
        let same = Same-ok _ _ _ (insert-Same pc r 31 root key val) run in
        rw (e, small, made, run, same) refl
  ]

  apply_entry-loaded :
      (e : Entry) (st : BlockState pc gv) (m : Map (List ℕ))
      → Fits e
      → IsCache gv st.cache
      → StandsFor pc none st.root m
      → apply_entry pc gv r e st ≡ apply_entry pc gv none e st
  unfolding apply_entry
  apply_entry-loaded e st m (len, fits) right h =
      let (key, cache, hit, _, long, _) =
        get_tree_key_for_basic_data-IsCache gv st.cache e.address len right in
      rw (apply_entry, hit, set_balance-loaded key (be_value e.balance) st.root m long fits h) refl

  -- The loop does the same with a resolver as without one.
  pub apply_entries-loaded :
      (es : List Entry) (st : BlockState pc gv) (m : Map (List ℕ))
      → All Fits es
      → IsCache gv st.cache
      → StandsFor pc none st.root m
      → apply_entries pc gv r es st ≡ apply_entries pc gv none es st
  unfolding apply_entries
  apply_entries-loaded [] st m fits right h = refl
  apply_entries-loaded (e ∷ es) st m (one, more) right h =
      let (st1, run, right1, h1) = apply_entry-StandsFor pc gv none e st m one right h in
      let same = apply_entry-loaded e st m one right h ∙ run in
      rw (apply_entries, run, same)
        (apply_entries-loaded es st1 (map_step (change_of gv e) m) more right1 h1)

  balance_of-Same :
      (a b : Answer (List ℕ)) (n : ℕ) → Same a b → balance_of a ≡ some n → balance_of b ≡ some n
  balance_of-Same a b n (inl e) h = absurd (none_some (rw e at h))
    where
      none_some : balance_of failed ≡ some n → ⊥
      none_some e = cc
  balance_of-Same a b n (inr e) h = rw e at h

  -- A balance that is found without loading a node is found with every resolver.
  pub read_balance-loaded :
      (root : Node) (addr : List ℕ) (n : ℕ)
      → read_balance pc gv none root addr ≡ some n
      → read_balance pc gv r root addr ≡ some n
  unfolding read_balance
  read_balance-loaded root addr n h =
      balance_of-Same (get pc none 31 root (account_key gv addr))
        (get pc r 31 root (account_key gv addr)) n (get-Same pc r 31 root (account_key gv addr)) h
