-- ===== src/Samurai.antt =====
-- internal/kt/samurai.go: SamuraiKTServer, one trie entry for a user and the versions in segment trees.
pub mod Apply
pub mod Proofs
pub mod Orders
pub mod Accounts
pub mod First
mod Runs
use smaran.Prelude.{
  ℕ, ◌+◌, ◌%◌, ◌^◌, Bool, true, false, ◌&&◌, Option, some, none, List, [], ◌∷◌, ◌++◌,
}
use smaran.Prelude.{length, Map}
use smaran.Account.{AccountInfo}
use smaran.Account.Curve.{Crypto}
use smaran.Optiks.Trie.{TrieLib}
use smaran.Optiks.Update.{KvPair}

-- What the server calls: the trie, the curve, common.BytesToAddress, and the polynomial arithmetic of one
-- proof, from the nodes of a tree and those to open.
pub record Services : Type 1 where
  pub lib : TrieLib
  pub crypto : Crypto
  pub bytes_to_address : List ℕ → List ℕ
  pub open_nodes : (ℕ → ℕ) → List ℕ → crypto.Point

module _ (sv : Services) where
  pub record SamuraiKtServer : Type 0 where
    pub update_buffer : List KvPair
    pub root_commitment : List ℕ
    pub root_commitment_is_dirty : Bool
    pub mpt : sv.lib.Trie
    pub samurai_accounts : Map (AccountInfo sv.crypto)
    pub current_key : Map (List ℕ)
    pub current_version : Map ℕ
    pub batch_size : ℕ
    pub keys_updated : ℕ
    pub epoch : ℕ
