-- ===== src/Optiks/Query/Whole.antt =====
-- The answer of getResult and the proofs of the trie.
use smaran.Prelude.{ℕ, Bool, ◌≡◌, List, ◌++◌, map}
use smaran.Optiks.Trie.{TrieLib}
use smaran.Optiks.Prefix.{Proof}
use smaran.Optiks.Update.{OptiksServer}
use smaran.Optiks.Query.{Outcome, answer, OptiksQueryResult}

module _ (lib : TrieLib) (s : OptiksServer lib) (user : List ℕ) (use_caching : Bool) where
  -- The proofs that a result stands for, with the common prefix before each.
  abbrev pub Stands : OptiksQueryResult → Outcome Proof → Outcome (List Proof) → Type 0
  Stands r next proofs =
      (next ≡ answer (r.common_proof_prefix ++ r.next_version_non_membership_proof))
      × (proofs ≡ answer (map (◌++◌ r.common_proof_prefix) r.version_proofs))
