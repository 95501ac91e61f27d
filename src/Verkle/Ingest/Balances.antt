-- ===== src/Verkle/Ingest/Balances.antt =====
-- The balance of an account in the trie.
use smaran.Prelude.{
  ℕ, ◌+◌, ◌<◌, ◌^◌, ◌≡◌, ◌≢◌, refl, sym, ap, ◌∙◌, arith, ◌==◌, Bool-cases, inl, inr,
}
use smaran.Prelude.{List, [], ◌∷◌, ◌++◌, length, take, All, Map, Option, some, none}
use smaran.Prelude.{bytes_eq, bytes_eq_iff, bytes_eq_refl, take-length}
use smaran.Bytes.{be_value, blit}
use smaran.Dataset.{Entry}
use smaran.Keys.{GoVerkle, address_20_to_32, basic_data_leaf_key, unpack_balance}
use mathlib.Core.List.{append-nil}
use smaran.Keys.Cache.{IsCache, get_tree_key-some, length-address_20_to_32}
use smaran.Keys.RoundTrip.{unpack-pack_basic_data}
use smaran.Verkle.{PointCodec, VerkleNode}
use smaran.Verkle.Trie.{Resolver, Answer, ok, key_not_found, failed, panic, get, to_value}
use smaran.Verkle.Trie.Keys.{slot_answer}
use smaran.Verkle.Trie.Refines.{Change, put, remove, StandsFor, map_run, map_step, key_of}
use smaran.Verkle.Commit.{FieldSub, commit}
use smaran.Verkle.Ingest.{BlockState, done, apply_entries}
use smaran.Verkle.Ingest.Entries.{
  Fits, balance_change, account_key, change_of, changes_of, apply_entries-StandsFor,
}
use smaran.Verkle.Ingest.Committed.{get-commit}

-- The balance that an answer of Get stands for: none is zero.
abbrev pub balance_of : Answer (List ℕ) → Option ℕ
balance_of (ok val) = some (unpack_balance val)
balance_of key_not_found = some 0
balance_of failed = none
balance_of panic = none

pub Fits-middle : (xs : List Entry) (e : Entry) (ys : List Entry) → All Fits (xs ++ e ∷ ys) → Fits e
Fits-middle [] e ys (one, more) = one
Fits-middle (x ∷ xs) e ys (one, more) = Fits-middle xs e ys more

map_run-append :
    (cs ds : List Change) (m : Map (List ℕ)) → map_run (cs ++ ds) m ≡ map_run ds (map_run cs m)
unfolding map_run
map_run-append [] ds m = refl
map_run-append (c ∷ cs) ds m = map_run-append cs ds (map_step c m)

-- A change leaves every key but its own.
map_step-other : (c : Change) (m : Map (List ℕ)) (k : List ℕ) → key_of c ≢ k → map_step c m k ≡ m k
unfolding map_step
map_step-other (put key value) m k apart = elim (Bool-cases (bytes_eq key k)) [
  | inl e ↦ absurd (apart ((bytes_eq_iff key k).0 e))
  | inr e ↦ rw e refl
]
map_step-other (remove key) m k apart = elim (Bool-cases (bytes_eq key k)) [
  | inl e ↦ absurd (apart ((bytes_eq_iff key k).0 e))
  | inr e ↦ rw e refl
]

to_value-whole : (val : List ℕ) → length val ≡ 32 → to_value val ≡ val
unfolding to_value blit
to_value-whole val len =
    let all : take 32 val ≡ val = ap (λ (n : ℕ). take n val) (sym len) ∙ take-length val in
    let end : 0 + length val ≡ 32 = omega (arith, len) in rw (all, end) (append-nil val)

-- What a balance leaves under its key reads as that balance.
map_step-balance_change :
    (key : List ℕ) (n : ℕ) (m : Map (List ℕ))
    → n < 2 ^ 128
    → balance_of (slot_answer (map_step (balance_change key n) m key)) ≡ some n
unfolding map_step balance_change
map_step-balance_change key n m fits = elim (Bool-cases (n == 0)) [
  | inl e ↦
      let zero_now : n ≡ 0 = ground arith in rw (e, bytes_eq_refl key) (ap some (sym zero_now))
  | inr e ↦
      let (val, made, len, _, back) = unpack-pack_basic_data n fits in
      rw (e, made, bytes_eq_refl key, to_value-whole val len) (ap some back)
]

balance_change-key : (key : List ℕ) (n : ℕ) → key_of (balance_change key n) ≡ key
unfolding balance_change
balance_change-key key n = elim (Bool-cases (n == 0)) [ inl e ↦ rw e refl | inr e ↦ rw e refl ]

module _ (pc : PointCodec) (gv : GoVerkle) (resolver : Option Resolver) where
  -- The balance that Get finds for an address.
  unfoldable pub read_balance : VerkleNode pc.crypto.Point → List ℕ → Option ℕ
  unfolding account_key
  read_balance root addr = balance_of (get pc resolver 31 root (account_key gv addr))

module _ (gv : GoVerkle) where
  changes_of-append :
      (xs ys : List Entry) → changes_of gv (xs ++ ys) ≡ changes_of gv xs ++ changes_of gv ys
  unfolding changes_of
  changes_of-append [] ys = refl
  changes_of-append (x ∷ xs) ys = ap (◌∷◌ (change_of gv x)) (changes_of-append xs ys)

  -- Entries of other keys leave what is under a key.
  map_run-others :
      (ys : List Entry) (m : Map (List ℕ)) (key : List ℕ)
      → All (λ y. account_key gv y.address ≢ key) ys
      → map_run (changes_of gv ys) m key ≡ m key
  unfolding map_run changes_of change_of
  map_run-others [] m key others = refl
  map_run-others (y ∷ ys) m key (other, others) =
      let own = balance_change-key (account_key gv y.address) (be_value y.balance) in
      map_run-others ys (map_step (change_of gv y) m) key others
      ∙ map_step-other (change_of gv y) m key (λ same. other (sym own ∙ same))

  map_run-cons :
      (e : Entry) (ys : List Entry) (m : Map (List ℕ))
      → map_run (changes_of gv (e ∷ ys)) m
        ≡ map_run
            (changes_of gv ys)
            (map_step (balance_change (account_key gv e.address) (be_value e.balance)) m)
  unfolding map_run changes_of change_of
  map_run-cons e ys m = refl

  length-account_key : (addr : List ℕ) → length addr ≡ 20 → length (account_key gv addr) ≡ 32
  unfolding account_key
  length-account_key addr len =
      let size : length (address_20_to_32 addr) ≡ 32 = length-address_20_to_32 addr len in
      let (key, e, long) =
        get_tree_key-some gv (address_20_to_32 addr) 0 basic_data_leaf_key size in
      rw e long

  -- The last entry of an account decides what is under its key.
  map_run-last :
      (xs ys : List Entry) (e : Entry) (m : Map (List ℕ))
      → be_value e.balance < 2 ^ 128
      → All (λ y. account_key gv y.address ≢ account_key gv e.address) ys
      → balance_of
          (slot_answer (map_run (changes_of gv (xs ++ e ∷ ys)) m (account_key gv e.address)))
        ≡ some (be_value e.balance)
  map_run-last xs ys e m fits others =
      let key = account_key gv e.address in
      let m1 = map_run (changes_of gv xs) m in
      let run : map_run (changes_of gv (xs ++ e ∷ ys)) m key
          ≡ map_step (balance_change key (be_value e.balance)) m1 key =
        ap (λ cs. map_run cs m key) (changes_of-append xs (e ∷ ys))
        ∙ ap (λ (g : Map (List ℕ)). g key)
            (map_run-append (changes_of gv xs) (changes_of gv (e ∷ ys)) m)
        ∙ ap (λ (g : Map (List ℕ)). g key) (map_run-cons e ys m1)
        ∙ map_run-others ys (map_step (balance_change key (be_value e.balance)) m1) key others in
      rw run (map_step-balance_change key (be_value e.balance) m1 fits)

module _ (pc : PointCodec) (f : FieldSub pc.crypto) (gv : GoVerkle)
    (resolver : Option Resolver) where
  -- For a cache that holds only right keys, a root that stands for a map, and entries with addresses of 20
  -- bytes and balances of at most 128 bits, of which none behind `e` has its tree key: the loop over the
  -- entries ends without an error, its root stands for the changed map, and after Commit the balance of `e` is found for its address.
  pub read_balance-apply_entries :
      (xs : List Entry) (e : Entry) (ys : List Entry) (st : BlockState pc gv) (m : Map (List ℕ))
      → All Fits (xs ++ e ∷ ys)
      → All (λ y. account_key gv y.address ≢ account_key gv e.address) ys
      → IsCache gv st.cache
      → StandsFor pc resolver st.root m
      → (st' : BlockState pc gv) × (apply_entries pc gv resolver (xs ++ e ∷ ys) st ≡ done st')
        × StandsFor pc resolver st'.root (map_run (changes_of gv (xs ++ e ∷ ys)) m)
        × (read_balance pc gv resolver (commit pc f st'.root) e.address ≡ some (be_value e.balance))
  unfolding read_balance
  read_balance-apply_entries xs e ys st m good others right h =
      let (len, fits) = Fits-middle xs e ys good in
      let (st', run, _, (ch, digest, hs, d, dirty, shape, resolved, agrees)) =
        apply_entries-StandsFor pc gv resolver (xs ++ e ∷ ys) st m good right h in
      let key = account_key gv e.address in
      let found : get pc resolver 31 (commit pc f st'.root) key
          ≡ slot_answer (map_run (changes_of gv (xs ++ e ∷ ys)) m key) =
        get-commit pc f resolver 31 st'.root key
        ∙ ap (λ n. get pc resolver 31 n key) shape
        ∙ agrees key (length-account_key gv e.address len) in
      (
        st',
        run,
        (ch, digest, hs, d, dirty, shape, resolved, agrees),
        ap balance_of found ∙ map_run-last gv xs ys e m fits others,
      )
