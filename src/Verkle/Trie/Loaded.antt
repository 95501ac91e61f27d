-- ===== src/Verkle/Trie/Loaded.antt =====
-- Get, Insert and Delete that load no node do the same with every resolver.
use smaran.Prelude.{ℕ, zero, suc, ◌≡◌, refl, Option, none, List, Bool-cases, inl, inr}
use smaran.Prelude.{◌⊎◌, Bool, true, get_or, ltb, if◌then◌else◌}
use smaran.Account.{update_at}
use smaran.Verkle.{PointCodec, VerkleNode, empty, internal, leaf, hashed}
use smaran.Verkle.Trie.{
  Resolver, Answer, ok, key_not_found, failed, panic, get, insert, insert_child, delete,
  resolve_if_hashed,
}

-- The first answer is an error of the resolver's kind, or the answers agree.
abbrev pub Same {ℓ} : {A : Type ℓ} → Answer A → Answer A → Type ℓ
Same a b = (a ≡ failed) ⊎ (a ≡ b)

abbrev then_ok {ℓ ℓ'} : {A : Type ℓ} {B : Type ℓ'} → Answer A → (A → Answer B) → Answer B
then_ok a g = elim a [
  | ok x ↦ g x
  | key_not_found ↦ key_not_found
  | failed ↦ failed
  | panic ↦ panic
]

then_ok-Same {ℓ ℓ'} :
    {A : Type ℓ} {B : Type ℓ'} (a b : Answer A) (g : A → Answer B)
    → Same a b
    → Same (then_ok a g) (then_ok b g)
then_ok-Same a b g (inl e) = inl (rw e refl)
then_ok-Same a b g (inr e) = inr (rw e refl)

module _ (pc : PointCodec) (r : Option Resolver) where
  abbrev Node : Type 0
  Node = VerkleNode pc.crypto.Point

  child-Same {ℓ} :
      {B : Type ℓ} (child : Node) (key : List ℕ) (d : ℕ) (g h : Node → Answer B)
      → ((n : Node) → Same (g n) (h n))
      → Same
          (then_ok (resolve_if_hashed pc none child key d) g)
          (then_ok (resolve_if_hashed pc r child key d) h)
  unfolding resolve_if_hashed
  child-Same empty key d g h same = same empty
  child-Same (internal ch digest hs e dirty) key d g h same = same (internal ch digest hs e dirty)
  child-Same (leaf l) key d g h same = same (leaf l)
  child-Same (hashed digest path) key d g h same = inl refl

  pub get-Same :
      (fuel : ℕ) (n : Node) (key : List ℕ) → Same (get pc none fuel n key) (get pc r fuel n key)
  unfolding get
  get-Same fuel empty key = inr refl
  get-Same fuel (leaf l) key = inr refl
  get-Same fuel (hashed digest path) key = inr refl
  get-Same zero (internal ch digest hs d dirty) key = inr refl
  get-Same (suc fuel) (internal ch digest hs d dirty) key = elim (Bool-cases (ltb d 31)) [
    | inl e ↦ rw e (
        child-Same (ch (get_or key d 0)) key d (λ n. get pc none fuel n key)
          (λ n. get pc r fuel n key) (λ n. get-Same fuel n key))
    | inr e ↦ rw e (inr refl)
  ]

  insert_child-Same :
      (f g : Node → Answer Node) (child : Node) (key value : List ℕ) (d : ℕ)
      → ((n : Node) → Same (f n) (g n))
      → Same (insert_child pc none f child key value d) (insert_child pc r g child key value d)
  unfolding insert_child
  insert_child-Same f g empty key value d same = inr refl
  insert_child-Same f g (internal ch digest hs e dirty) key value d same =
      same (internal ch digest hs e dirty)
  insert_child-Same f g (leaf l) key value d same = inr refl
  insert_child-Same f g (hashed digest path) key value d same = inr refl

  pub insert-Same :
      (fuel : ℕ) (n : Node) (key value : List ℕ)
      → Same (insert pc none fuel n key value) (insert pc r fuel n key value)
  unfolding insert
  insert-Same fuel empty key value = inr refl
  insert-Same fuel (leaf l) key value = inr refl
  insert-Same fuel (hashed digest path) key value = inr refl
  insert-Same zero (internal ch digest hs d dirty) key value = inr refl
  insert-Same (suc fuel) (internal ch digest hs d dirty) key value =
      let placed : Node → Answer Node =
        λ c. ok (internal (update_at (get_or key d 0) c ch) digest hs d true) in
      let below : Node → Answer Node = λ n. insert pc none fuel n key value in
      let below' : Node → Answer Node = λ n. insert pc r fuel n key value in
      elim (Bool-cases (ltb d 31)) [
        | inl e ↦ rw e (
            child-Same (ch (get_or key d 0)) key d
              (λ n. then_ok (insert_child pc none below n key value d) placed)
              (λ n. then_ok (insert_child pc r below' n key value d) placed)
              (λ n.
                then_ok-Same (insert_child pc none below n key value d)
                  (insert_child pc r below' n key value d) placed
                  (insert_child-Same below below' n key value d
                    (λ m. insert-Same fuel m key value))))
        | inr e ↦ rw e (inr refl)
      ]

  pub delete-Same :
      (fuel : ℕ) (n : Node) (key : List ℕ)
      → Same (delete pc none fuel n key) (delete pc r fuel n key)
  unfolding delete
  delete-Same fuel empty key = inr refl
  delete-Same fuel (leaf l) key = inr refl
  delete-Same fuel (hashed digest path) key = inr refl
  delete-Same zero (internal ch digest hs d dirty) key = inr refl
  delete-Same (suc fuel) (internal ch digest hs d dirty) key =
      let placed : Bool × Node → Answer (Bool × Node) = λ x. ok (
        x.0,
        internal (update_at (get_or key d 0) x.1 ch) digest hs d (if x.0 then true else dirty),
      ) in
      elim (Bool-cases (ltb d 31)) [
        | inl e ↦ rw e (
            child-Same (ch (get_or key d 0)) key d (λ n. then_ok (delete pc none fuel n key) placed)
              (λ n. then_ok (delete pc r fuel n key) placed)
              (λ n.
                then_ok-Same (delete pc none fuel n key) (delete pc r fuel n key) placed
                  (delete-Same fuel n key)))
        | inr e ↦ rw e (inr refl)
      ]
