-- ===== src/Optiks/Query.antt =====
-- Get, getResult and proveKey.
pub mod Whole
use smaran.Prelude.{ℕ, zero, suc, ◌+◌, Bool, true, false, Option, some, none, List, [], ◌∷◌, ◌++◌}
use smaran.Prelude.{length, drop, map, if◌then◌else◌, value_or}
use smaran.Optiks.Trie.{TrieLib}
use smaran.Optiks.Key.{make_trie_key}
use smaran.Optiks.Prefix.{Proof, compute_common_proof_prefix}
use smaran.Optiks.Update.{OptiksServer, u64, flush}

-- The result of a request: an error for the caller, or a panic of the server.
pub data Outcome {ℓ} (A : Type ℓ) : Type ℓ where
  answer : A → Outcome A
  error panic : Outcome A

pub record OptiksQueryResult : Type 0 where
  pub value : Option (List ℕ)
  pub current_version : ℕ
  pub next_version_non_membership_proof : Proof
  pub version_proofs : List Proof
  pub current_version_epoch : ℕ
  pub old_versions : List (List ℕ)
  pub old_version_epochs : List ℕ
  pub common_proof_prefix : Proof

abbrev pub prepend : Proof → Outcome (List Proof) → Outcome (List Proof)
prepend p (answer ps) = answer (p ∷ ps)
prepend p error = error
prepend p panic = panic

-- One round of the loop: the proof of this version, and what the later rounds give.
abbrev pub in_order : Outcome Proof → Outcome (List Proof) → Outcome (List Proof)
in_order (answer p) rest = prepend p rest
in_order error rest = error
in_order panic rest = panic

-- The proof of a key, if there is one.
abbrev pub key_outcome : (List ℕ → Option Proof) → Option (List ℕ) → Outcome Proof
key_outcome prove none = panic
key_outcome prove (some key) = elim (prove key) [ none ↦ error | some p ↦ answer p ]

module _ (lib : TrieLib) where
  -- makeTrieKey and proveKey.
  unfoldable pub prove_version : lib.Trie → List ℕ → ℕ → Outcome Proof
  unfolding make_trie_key
  prove_version t user version = key_outcome (lib.prove t) (make_trie_key user version)

  -- `for i := uint64(1); i <= n; i++`, with the rounds that are left.
  unfoldable pub prove_versions : lib.Trie → List ℕ → ℕ → ℕ → Outcome (List Proof)
  unfolding prove_version
  prove_versions t user zero i = answer []
  prove_versions t user (suc rounds) i =
      in_order (prove_version t user i) (prove_versions t user rounds (i + 1))

  -- The rest of getResult, with the proof of version n + 1 and those of the versions.
  unfoldable pub build_result :
      OptiksServer lib
      → List ℕ
      → Bool
      → Outcome Proof
      → Outcome (List Proof)
      → Outcome OptiksQueryResult
  unfolding compute_common_proof_prefix
  build_result s user use_caching (answer next) (answer proofs) =
      let prefix = compute_common_proof_prefix (next ∷ proofs) in
      let d = s.directory in
      answer (record {
        value = d.current_key user;
        current_version = value_or 0 (d.current_versions user);
        next_version_non_membership_proof = drop (length prefix) next;
        version_proofs = map (drop (length prefix)) proofs;
        current_version_epoch = value_or 0 (d.current_epoch user);
        old_versions = if use_caching then [] else value_or [] (d.old_keys user);
        old_version_epochs = if use_caching then [] else value_or [] (d.old_epochs user);
        common_proof_prefix = prefix;
      })
  build_result s user use_caching (answer next) error = error
  build_result s user use_caching (answer next) panic = panic
  build_result s user use_caching error proofs = error
  build_result s user use_caching panic proofs = panic

  unfoldable pub get_result : OptiksServer lib → List ℕ → Bool → Outcome OptiksQueryResult
  unfolding prove_version prove_versions build_result
  get_result s user use_caching =
      let n = value_or 0 (s.directory.current_versions user) in
      build_result s user use_caching (prove_version s.mpt user (u64 (n + 1)))
        (prove_versions s.mpt user n 1)

  unfoldable pub get :
      OptiksServer lib → List ℕ → Bool → Outcome (OptiksQueryResult × OptiksServer lib)
  unfolding get_result
  get s user use_caching = elim (flush lib s) [
    | none ↦ panic
    | some t ↦ elim (get_result t user use_caching) [
      | answer r ↦ answer (r, t)
      | error ↦ error
      | panic ↦ panic
    ]
  ]
