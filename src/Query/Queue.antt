-- ===== src/Query/Queue.antt =====
-- internal/kt/proof/helpers.go: Queue, the queue of addDepencencyCommitments, as the list of its slice.
use smaran.Prelude.{
  ℕ, zero, suc, ◌≡◌, refl, sym, ap, ◌∙◌, Bool, ◌==◌, Option, some, none, List, [], ◌∷◌, ◌++◌,
  length,
}
use mathlib.Core.List.{append_assoc, append-nil}
use mathlib.Core.Option

module _ {ℓ} {A : Type ℓ} where
  unfoldable pub enqueue : List A → A → List A
  enqueue q value = q ++ value ∷ []

  -- `none` is the error "queue is empty".
  unfoldable pub dequeue : List A → Option (A × List A)
  dequeue [] = none
  dequeue (value ∷ q) = some (value, q)

  unfoldable pub peek : List A → Option A
  peek [] = none
  peek (value ∷ q) = some value

  unfoldable pub is_empty : List A → Bool
  is_empty q = length q == 0

  unfoldable pub size : List A → ℕ
  size q = length q

  unfoldable pub enqueue_all : List A → List A → List A
  unfolding enqueue
  enqueue_all q [] = q
  enqueue_all q (x ∷ xs) = enqueue_all (enqueue q x) xs

  -- The values of `n` calls of Dequeue.
  unfoldable pub dequeue_all : ℕ → List A → Option (List A)
  unfolding dequeue
  dequeue_all zero q = some []
  dequeue_all (suc n) q = Option.bind (dequeue q) (λ r. Option.map (◌∷◌ r.0) (dequeue_all n r.1))

  dequeue_all-length : (xs : List A) → dequeue_all (length xs) xs ≡ some xs
  unfolding dequeue_all Option.bind
  dequeue_all-length [] = refl
  dequeue_all-length (x ∷ xs) = rw (dequeue_all-length xs) refl

  enqueue_all-append : (xs q : List A) → enqueue_all q xs ≡ q ++ xs
  unfolding enqueue_all enqueue
  enqueue_all-append [] q = sym (append-nil q)
  enqueue_all-append (x ∷ xs) q = enqueue_all-append xs (q ++ x ∷ []) ∙ append_assoc q (x ∷ []) xs

  -- What is enqueued comes out in the same order, behind what was in the queue, and as many calls of
  -- Dequeue as values succeed.
  pub dequeue_all-enqueue_all :
      (q xs : List A) → dequeue_all (size (enqueue_all q xs)) (enqueue_all q xs) ≡ some (q ++ xs)
  unfolding size
  dequeue_all-enqueue_all q xs =
      dequeue_all-length (enqueue_all q xs) ∙ ap some (enqueue_all-append xs q)
