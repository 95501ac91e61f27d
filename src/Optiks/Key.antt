-- ===== src/Optiks/Key.antt =====
-- makeTrieKey of optiks.go and makeSamuraiTrieKey of samurai.go.
pub mod Distinct
use smaran.Prelude.{ℕ, ◌+◌, Option, some, none}
use smaran.Prelude.{List, length, replicate, take, ltb, if◌then◌else◌}
use smaran.Bytes.{be_bytes, blit}

-- 32 bytes: the user, the version, and zeros. `none` is the panic "trie key is too long".
unfoldable pub make_trie_key : List ℕ → ℕ → Option (List ℕ)
make_trie_key user version =
    if ltb 32 (length user + 8)
    then none
    else some (blit (length user) (be_bytes 8 version) (blit 0 user (replicate 32 0)))

-- copy takes as many bytes as fit.
unfoldable pub make_samurai_trie_key : List ℕ → List ℕ
make_samurai_trie_key user = blit 0 (take 32 user) (replicate 32 0)
