-- ===== src/Verkle/Trie/Refines.antt =====
-- A run of Insert and Delete on the trie against a map from keys to values.
use smaran.Prelude.{ℕ, ◌≡◌, refl, ◌∙◌, Option, some, none, Bool, true, false}
use smaran.Prelude.{
  List, [], ◌∷◌, length, All, bytes_eq, if◌then◌else◌, Map, insert as insert_map, empty_map,
}
use smaran.Verkle.{PointCodec, VerkleNode, empty, internal, new_internal_node}
use smaran.Verkle.Serialize.{is_some}
use smaran.Verkle.Trie.{
  Resolver, Answer, ok, key_not_found, failed, panic, get, insert, delete, to_value,
}
use smaran.Verkle.Trie.Keys.{slot_answer}
use smaran.Verkle.Trie.Sound.{Resolved, Kept}
use smaran.Verkle.Trie.Insert.{insert-Resolved}
use smaran.Verkle.Trie.Delete.{delete-Resolved, is_ok}

-- A change of the trie: Insert of a key with a value, or Delete of a key.
pub data Change : Type 0 where
  put : List ℕ → List ℕ → Change
  remove : List ℕ → Change

abbrev pub key_of : Change → List ℕ
key_of (put key value) = key
key_of (remove key) = key

-- What a change does to the map, and what it reports: true of a Delete that removes a value.
unfoldable pub map_step : Change → Map (List ℕ) → Map (List ℕ)
map_step (put key value) m = insert_map key (to_value value) m
map_step (remove key) m = λ j. if bytes_eq key j then none else m j

unfoldable pub map_report : Change → Map (List ℕ) → Option Bool
unfolding is_some
map_report (put key value) m = none
map_report (remove key) m = some (is_some (m key))

unfoldable pub map_run : List Change → Map (List ℕ) → Map (List ℕ)
map_run [] m = m
map_run (c ∷ cs) m = map_run cs (map_step c m)

unfoldable pub map_reports : List Change → Map (List ℕ) → List (Option Bool)
map_reports [] m = []
map_reports (c ∷ cs) m = map_report c m ∷ map_reports cs (map_step c m)

slot_answer-if :
    (b : Bool) (x y : Option (List ℕ)) (a : Answer (List ℕ))
    → a ≡ slot_answer y
    → (if b then slot_answer x else a) ≡ slot_answer (if b then x else y)
slot_answer-if true x y a e = refl
slot_answer-if false x y a e = e

is_ok-slot_answer : (o : Option (List ℕ)) → is_ok (slot_answer o) ≡ is_some o
unfolding is_some
is_ok-slot_answer none = refl
is_ok-slot_answer (some v) = refl

module _ (pc : PointCodec) (resolver : Option Resolver) where
  abbrev Node : Type 0
  Node = VerkleNode pc.crypto.Point

  -- One change of the trie from its root, with the 31 levels below it for fuel.
  unfoldable pub trie_step : Change → Node → Answer (Option Bool × Node)
  trie_step (put key value) root = elim (insert pc resolver 31 root key value) [
    | ok root' ↦ ok (none, root')
    | key_not_found ↦ key_not_found
    | failed ↦ failed
    | panic ↦ panic
  ]
  trie_step (remove key) root = elim (delete pc resolver 31 root key) [
    | ok (deleted, root') ↦ ok (some deleted, root')
    | key_not_found ↦ key_not_found
    | failed ↦ failed
    | panic ↦ panic
  ]

  unfoldable pub trie_run : List Change → Node → Answer (List (Option Bool) × Node)
  unfolding trie_step
  trie_run [] root = ok ([], root)
  trie_run (c ∷ cs) root = elim (trie_step c root) [
    | ok (report, root') ↦ elim (trie_run cs root') [
      | ok (reports, final) ↦ ok (report ∷ reports, final)
      | key_not_found ↦ key_not_found
      | failed ↦ failed
      | panic ↦ panic
    ]
    | key_not_found ↦ key_not_found
    | failed ↦ failed
    | panic ↦ panic
  ]

  -- A root that stands for a map: an internal node, resolved, that answers each key of 32 bytes as the map.
  abbrev pub StandsFor : Node → Map (List ℕ) → Type 0
  StandsFor root m =
      (ch : ℕ → Node) × (digest : pc.crypto.Point) × (hs : ℕ → ℕ) × (d : ℕ) × (dirty : Bool) × (root
        ≡ internal ch digest hs d dirty)
      × Resolved pc resolver 31 [] (internal ch digest hs d dirty)
      × ((k : List ℕ)
          → length k ≡ 32
          → get pc resolver 31 (internal ch digest hs d dirty) k ≡ slot_answer (m k))

  -- Insert of a key of 32 bytes succeeds, and the root stands for the map with the value.
  pub insert-StandsFor :
      (key value : List ℕ) (root : Node) (m : Map (List ℕ))
      → length key ≡ 32
      → StandsFor root m
      → (root' : Node) × (insert pc resolver 31 root key value ≡ ok root')
        × StandsFor root' (map_step (put key value) m)
  unfolding map_step
  insert-StandsFor key value root m len (ch, digest, hs, d, dirty, e, resolved, agrees) =
      let (ch', run, resolved', answers) =
        insert-Resolved pc resolver 31 [] ch digest hs d dirty key value len refl resolved in
      (
        internal ch' digest hs d true,
        rw e run,
        (
          ch',
          digest,
          hs,
          d,
          true,
          refl,
          resolved',
          λ k lk.
              answers k lk refl
              ∙ slot_answer-if (bytes_eq key k) (some (to_value value)) (m k) _ (agrees k lk),
        ),
      )

  -- Delete of a key of 32 bytes succeeds and says whether the map has the key, and the root stands for the map
  -- without it.
  pub delete-StandsFor :
      (key : List ℕ) (root : Node) (m : Map (List ℕ))
      → length key ≡ 32
      → StandsFor root m
      → (root' : Node) × (delete pc resolver 31 root key ≡ ok (is_some (m key), root'))
        × StandsFor root' (map_step (remove key) m)
  unfolding map_step
  delete-StandsFor key root m len (ch, digest, hs, d, dirty, e, resolved, agrees) =
      let (ch', dirty', run, resolved', answers) =
        delete-Resolved pc resolver 31 [] ch digest hs d dirty key len refl resolved in
      (
        internal ch' digest hs d dirty',
        rw (e, run, agrees key len, is_ok-slot_answer (m key)) refl,
        (
          ch',
          digest,
          hs,
          d,
          dirty',
          refl,
          resolved',
          λ k lk. answers k lk refl ∙ slot_answer-if (bytes_eq key k) none (m k) _ (agrees k lk),
        ),
      )

  -- One change succeeds, reports as the map, and its root stands for the changed map.
  step_refines :
      (c : Change) (root : Node) (m : Map (List ℕ))
      → length (key_of c) ≡ 32
      → StandsFor root m
      → (root' : Node) × (trie_step c root ≡ ok (map_report c m, root'))
        × StandsFor root' (map_step c m)
  unfolding trie_step map_report
  step_refines (put key value) root m len h =
      let (root', run, stands) = insert-StandsFor key value root m len h in
      (root', rw (trie_step, run) refl, stands)
  step_refines (remove key) root m len h =
      let (root', run, stands) = delete-StandsFor key root m len h in
      (root', rw (trie_step, run) refl, stands)

  -- Every change of a run succeeds, the reports are those of the map, and the last root stands for the map.
  pub trie_run-StandsFor :
      (cs : List Change) (root : Node) (m : Map (List ℕ))
      → All (λ c. length (key_of c) ≡ 32) cs
      → StandsFor root m
      → (root' : Node) × (trie_run cs root ≡ ok (map_reports cs m, root'))
        × StandsFor root' (map_run cs m)
  unfolding trie_run map_reports map_run
  trie_run-StandsFor [] root m keys h = (root, refl, h)
  trie_run-StandsFor (c ∷ cs) root m keys h =
      let (root', run, h') = step_refines c root m keys.0 h in
      let (final, runs, stands) = trie_run-StandsFor cs root' (map_step c m) keys.1 h' in
      (final, rw (trie_run, run, runs) refl, stands)

  pub new_internal_node-StandsFor : StandsFor (new_internal_node pc.crypto 0) empty_map
  unfolding new_internal_node Resolved get Kept
  new_internal_node-StandsFor = (
    (λ i. empty),
    pc.crypto.infinity,
    (λ i. 0),
    0,
    false,
    refl,
    (refl, refl, λ i. tt),
    λ k len. refl,
  )

  -- A run of Insert and Delete with keys of 32 bytes, from a root whose stubs can be loaded and which stands for
  -- a map, succeeds; it reports of each Delete whether the map had the key then, and at the end Get of each key
  -- of 32 bytes answers as the changed map.
  pub get-trie_run :
      (cs : List Change) (root : Node) (m : Map (List ℕ)) (k : List ℕ)
      → All (λ c. length (key_of c) ≡ 32) cs
      → StandsFor root m
      → length k ≡ 32
      → (root' : Node) × (trie_run cs root ≡ ok (map_reports cs m, root'))
        × (get pc resolver 31 root' k ≡ slot_answer (map_run cs m k))
  get-trie_run cs root m k keys h len =
      let (root', run, (ch, digest, hs, d, dirty, e, resolved, agrees)) =
        trie_run-StandsFor cs root m keys h in
      (root', run, rw e (agrees k len))
