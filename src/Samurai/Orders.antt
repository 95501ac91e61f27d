-- ===== src/Samurai/Orders.antt =====
-- The orders in which the workers of applyUpdates may run the updates.
use smaran.Prelude.{ℕ, ◌≡◌, ◌≢◌, refl, sym, ap, ◌∙◌, Option, some, none, Option-cases, inl, inr}
use smaran.Prelude.{false, Bool-cases, bytes_eq, bytes_eq_iff, insert, Map}
use smaran.Prelude.{List, [], ◌∷◌, All}
use mathlib.Core.Option
use smaran.Account.{AccountInfo, update_in_memory}
use smaran.Optiks.Update.{KvPair}
use smaran.Samurai.{Services, SamuraiKtServer}
use smaran.Samurai.Apply.{get_account_or_create, run_updates}

-- A worker takes the pairs of its users in the order in which they were sent, so only neighbours of
-- different users can change places.
pub data Reordered : List KvPair → List KvPair → Type 0 where
  same : (ps : List KvPair) → Reordered ps ps
  keep : (p : KvPair) (ps qs : List KvPair) → Reordered ps qs → Reordered (p ∷ ps) (p ∷ qs)
  swap : (p q : KvPair) (ps : List KvPair) → p.user ≢ q.user → Reordered (p ∷ q ∷ ps) (q ∷ p ∷ ps)
  chain : (ps qs rs : List KvPair) → Reordered ps qs → Reordered qs rs → Reordered ps rs

All-map :
    (P Q : KvPair → Type 0) (ps : List KvPair) → ((p : KvPair) → P p → Q p) → All P ps → All Q ps
All-map P Q [] f h = tt
All-map P Q (p ∷ ps) f h = (f p h.0, All-map P Q ps f h.1)

All-Reordered : (P : KvPair → Type 0) (ps qs : List KvPair) → Reordered ps qs → All P ps → All P qs
All-Reordered P ps _ (same _) h = h
All-Reordered P _ _ (keep p ps qs r) h = (h.0, All-Reordered P ps qs r h.1)
All-Reordered P _ _ (swap p q ps apart) h = (h.1.0, (h.0, h.1.1))
All-Reordered P _ _ (chain ps qs rs r t) h = All-Reordered P qs rs t (All-Reordered P ps qs r h)

bytes_eq-false : (xs ys : List ℕ) → xs ≢ ys → bytes_eq xs ys ≡ false
bytes_eq-false xs ys apart = elim (Bool-cases (bytes_eq xs ys)) [
  | inl e ↦ absurd (apart ((bytes_eq_iff xs ys).0 e))
  | inr e ↦ e
]

module _ (sv : Services) where
  -- Users of the pairs with one address are one user.
  abbrev pub OwnAddresses : List KvPair → Type 0
  OwnAddresses ps =
      All
        (λ p.
          All (λ q. sv.bytes_to_address p.user ≡ sv.bytes_to_address q.user → p.user ≡ q.user) ps)
        ps

  abbrev Distinct : KvPair → KvPair → Type 0
  Distinct p q = sv.bytes_to_address p.user ≡ sv.bytes_to_address q.user → p.user ≡ q.user

  OwnAddresses-Reordered :
      (ps qs : List KvPair) → Reordered ps qs → OwnAddresses ps → OwnAddresses qs
  OwnAddresses-Reordered ps qs r own =
      All-Reordered (λ p. All (Distinct p) qs) ps qs r
        (All-map (λ p. All (Distinct p) ps) (λ p. All (Distinct p) qs) ps
          (λ p h. All-Reordered (Distinct p) ps qs r h) own)

  OwnAddresses-rest : (p : KvPair) (ps : List KvPair) → OwnAddresses (p ∷ ps) → OwnAddresses ps
  OwnAddresses-rest p ps own =
      All-map (λ q. All (Distinct q) (p ∷ ps)) (λ q. All (Distinct q) ps) ps (λ q h. h.1) own.1

  module _ (epoch : ℕ) where
    abbrev updated : KvPair → SamuraiKtServer sv → Option (AccountInfo sv.crypto)
    updated p s =
        update_in_memory sv.crypto 1 epoch (sv.crypto.bytes_to_hash p.key)
          (get_account_or_create sv (sv.bytes_to_address p.user) s)

    abbrev written : KvPair → AccountInfo sv.crypto → SamuraiKtServer sv → SamuraiKtServer sv
    written p ai s = record s {
      samurai_accounts = insert (sv.bytes_to_address p.user) ai s.samurai_accounts;
    }

    run_one :
        (p : KvPair) (ps : List KvPair) (s : SamuraiKtServer sv) (ai : AccountInfo sv.crypto)
        → updated p s ≡ some ai
        → run_updates sv epoch (p ∷ ps) s ≡ run_updates sv epoch ps (written p ai s)
    unfolding run_updates Option.bind
    run_one p ps s ai e = rw e refl

    run_none :
        (p : KvPair) (ps : List KvPair) (s : SamuraiKtServer sv)
        → updated p s ≡ none
        → run_updates sv epoch (p ∷ ps) s ≡ none
    unfolding run_updates Option.bind
    run_none p ps s e = rw e refl

    module _ (p q : KvPair) (apart : sv.bytes_to_address p.user ≢ sv.bytes_to_address q.user) where
      -- The update of another account sees the same account.
      updated-written :
          (s : SamuraiKtServer sv) (ai : AccountInfo sv.crypto)
          → updated q (written p ai s) ≡ updated q s
      unfolding get_account_or_create
      updated-written s ai =
          rw (bytes_eq-false (sv.bytes_to_address p.user) (sv.bytes_to_address q.user) apart) refl

      insert-insert :
          (a b : AccountInfo sv.crypto) (m : Map (AccountInfo sv.crypto)) (k : List ℕ)
          → insert (sv.bytes_to_address q.user) b (insert (sv.bytes_to_address p.user) a m) k
            ≡ insert (sv.bytes_to_address p.user) a (insert (sv.bytes_to_address q.user) b m) k
      insert-insert a b m k = elim (Bool-cases (bytes_eq (sv.bytes_to_address p.user) k)) [
        | inl e ↦
            let at : sv.bytes_to_address p.user ≡ k =
              (bytes_eq_iff (sv.bytes_to_address p.user) k).0 e in
            let late : bytes_eq (sv.bytes_to_address q.user) k ≡ false =
              bytes_eq-false (sv.bytes_to_address q.user) k (λ e'. apart (at ∙ sym e')) in
            rw (e, late) refl
        | inr e ↦ rw e refl
      ]

      written-written :
          (a b : AccountInfo sv.crypto) (s : SamuraiKtServer sv)
          → written q b (written p a s) ≡ written p a (written q b s)
      written-written a b s =
          ap (λ (m : Map (AccountInfo sv.crypto)). record s { samurai_accounts = m })
            (λ i. λ k. insert-insert a b s.samurai_accounts k i)

      run_swap :
          (ps : List KvPair) (s : SamuraiKtServer sv)
          → run_updates sv epoch (p ∷ q ∷ ps) s ≡ elim (updated p s) [
            | none ↦ none
            | some a ↦ elim (updated q s) [
              | none ↦ none
              | some b ↦ run_updates sv epoch ps (written q b (written p a s))
            ]
          ]
      run_swap ps s = elim (Option-cases (updated p s)) [
        | inl e ↦ rw e (run_none p (q ∷ ps) s e)
        | inr (a, e) ↦ elim (Option-cases (updated q s)) [
          | inl d ↦
              rw (e, d)
                (run_one p (q ∷ ps) s a e ∙ run_none q ps (written p a s) (updated-written s a ∙ d))
          | inr (b, d) ↦
              rw (e, d)
                (run_one p (q ∷ ps) s a e
                  ∙ run_one q ps (written p a s) b (updated-written s a ∙ d))
        ]
      ]

    run_swapped :
        (p q : KvPair) (ps : List KvPair) (s : SamuraiKtServer sv)
        → sv.bytes_to_address p.user ≢ sv.bytes_to_address q.user
        → run_updates sv epoch (p ∷ q ∷ ps) s ≡ run_updates sv epoch (q ∷ p ∷ ps) s
    run_swapped p q ps s apart =
        run_swap p q apart ps s
        ∙ both (updated p s) (updated q s)
        ∙ sym (run_swap q p (λ e. apart (sym e)) ps s)
      where
        both :
            (x y : Option (AccountInfo sv.crypto))
            → (elim x [
              | none ↦ none
              | some a ↦ elim y [
                | none ↦ none
                | some b ↦ run_updates sv epoch ps (written q b (written p a s))
              ]
            ])
              ≡ elim y [
                | none ↦ none
                | some b ↦ elim x [
                  | none ↦ none
                  | some a ↦ run_updates sv epoch ps (written p a (written q b s))
                ]
              ]
        both none none = refl
        both none (some b) = refl
        both (some a) none = refl
        both (some a) (some b) =
            ap (λ t. run_updates sv epoch ps t) (written-written p q apart a b s)

    -- Every order that keeps the pairs of each user leads to the same accounts.
    pub run_updates-Reordered :
        (ps qs : List KvPair)
        → Reordered ps qs
        → OwnAddresses ps
        → (s : SamuraiKtServer sv) → run_updates sv epoch qs s ≡ run_updates sv epoch ps s
    run_updates-Reordered ps _ (same _) own s = refl
    run_updates-Reordered _ _ (keep p ps qs r) own s = elim (Option-cases (updated p s)) [
      | inl e ↦ run_none p qs s e ∙ sym (run_none p ps s e)
      | inr (a, e) ↦
          run_one p qs s a e
          ∙ run_updates-Reordered ps qs r (OwnAddresses-rest p ps own) (written p a s)
          ∙ sym (run_one p ps s a e)
    ]
    run_updates-Reordered _ _ (swap p q ps apart) own s =
        run_swapped q p ps s (λ e. apart (own.0.1.0 (sym e)))
    run_updates-Reordered _ _ (chain ps qs rs r t) own s =
        run_updates-Reordered qs rs t (OwnAddresses-Reordered ps qs r own) s
        ∙ run_updates-Reordered ps qs r own s
