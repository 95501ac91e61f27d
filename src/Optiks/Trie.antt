-- ===== src/Optiks/Trie.antt =====
-- What the server uses of go-ethereum: a Merkle Patricia trie in memory and the RLP encoding.
-- Both are parameters; the laws are those that the packages document.
use smaran.Prelude.{ℕ, Option, some, List, ◌≡◌, bytes_eq, if◌then◌else◌}

pub record TrieLib : Type 1 where
  pub Trie : Type 0
  pub new_empty : Trie
  -- `none` is an error.
  pub update : Trie → List ℕ → List ℕ → Option Trie
  pub hash : Trie → List ℕ
  pub get : Trie → List ℕ → Option (List ℕ)
  -- The nodes that Prove hands to the collector, from the root on; `none` is an error.
  pub prove : Trie → List ℕ → Option (List (List ℕ))
  -- rlp.EncodeToBytes of a byte string.
  pub encode : List ℕ → Option (List ℕ)
  pub get-update :
      (t u : Trie) (k v j : List ℕ)
      → update t k v ≡ some u
      → get u j ≡ (if bytes_eq k j then some v else get t j)
