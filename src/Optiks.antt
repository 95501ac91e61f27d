-- ===== src/Optiks.antt =====
-- internal/kt/optiks.go: the server of the OPTIKS key transparency protocol.
-- A mutex is held over each method, so a method is one step from state to state. A uint64 counter
-- wraps at 2 ^ 64. `none` is a panic.
pub mod Trie
pub mod Key
pub mod Prefix
pub mod Update
pub mod Query
pub mod Sample
mod Runs
