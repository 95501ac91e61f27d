-- ===== src/Optiks/Update.antt =====
-- OptiksServer: its state, Put, applyUpdates and GetCommitment.
pub mod History
pub mod Total
use smaran.Prelude.{
  ℕ, ◌+◌, ◌%◌, ◌^◌, Bool, true, false, ◌&&◌, Option, some, none, List, [], ◌∷◌, ◌++◌,
}
use smaran.Prelude.{length, ltb, leb, if◌then◌else◌, Map, empty_map, insert, value_or}
use mathlib.Core.Option
use smaran.Bytes.{be_bytes}
use smaran.Optiks.Trie.{TrieLib}
use smaran.Optiks.Key.{make_trie_key}

pub record KvPair : Type 0 where
  pub user : List ℕ
  pub key : List ℕ

pub record TrieUpdate : Type 0 where
  pub account : List ℕ
  pub value : List ℕ

-- The maps of the server, which applyUpdates writes pair by pair.
pub record Directory : Type 0 where
  pub current_versions : Map ℕ
  pub current_key : Map (List ℕ)
  pub current_epoch : Map ℕ
  pub old_keys : Map (List (List ℕ))
  pub old_epochs : Map (List ℕ)

abbrev pub u64 : ℕ → ℕ
u64 n = n % 2 ^ 64

-- CurrentVersions[user] after the increment.
abbrev pub next_version : Option ℕ → ℕ
next_version none = 1
next_version (some v) = u64 (v + 1)

-- The part of the loop body up to the new version: the old key is archived, the new one stored.
unfoldable pub record_key : ℕ → KvPair → Directory → Directory
record_key epoch pair d =
    let user = pair.user in
    let old : Directory = elim (d.current_key user) [
      | none ↦ d
      | some old_key ↦ record d {
        old_keys = insert user (value_or [] (d.old_keys user) ++ old_key ∷ []) d.old_keys;
        old_epochs =
            insert user (value_or [] (d.old_epochs user) ++ value_or 0 (d.current_epoch user) ∷ [])
              d.old_epochs;
      }
    ] in
    record old {
      current_key = insert user pair.key d.current_key;
      current_epoch = insert user epoch d.current_epoch;
      current_versions = insert user (next_version (d.current_versions user)) d.current_versions;
    }

module _ (lib : TrieLib) where
  open lib use {Trie, new_empty, update, hash, encode}

  pub record OptiksServer : Type 0 where
    pub update_buffer : List KvPair
    pub root_commitment : List ℕ
    pub root_commitment_is_dirty : Bool
    pub mpt : Trie
    pub directory : Directory
    pub batch_size : ℕ
    pub keys_updated : ℕ
    pub epoch : ℕ

  -- The loop of step 2; the trie updates come out in the order of the buffer. An update whose value
  -- cannot be encoded is left out, but its version stays taken.
  unfoldable pub record_pairs : ℕ → List KvPair → Directory → Option (Directory × List TrieUpdate)
  unfolding record_key make_trie_key
  record_pairs epoch [] d = some (d, [])
  record_pairs epoch (pair ∷ pairs) d =
      let d' = record_key epoch pair d in
      let rest = record_pairs epoch pairs d' in
      elim (make_trie_key pair.user (value_or 0 (d'.current_versions pair.user))) [
        | none ↦ none
        | some account ↦ elim rest [
          | none ↦ none
          | some (d2, updates) ↦ elim (encode (be_bytes 8 epoch ++ pair.key)) [
            | none ↦ some (d2, updates)
            | some value ↦ some (d2, record { account = account; value = value } ∷ updates)
          ]
        ]
      ]

  -- Step 4; an update that fails is logged and leaves the trie as it is.
  unfoldable pub apply_to_trie : Trie → List TrieUpdate → Trie
  apply_to_trie t [] = t
  apply_to_trie t (u ∷ us) = apply_to_trie (value_or t (update t u.account u.value)) us

  unfoldable pub apply_updates : OptiksServer → Option OptiksServer
  unfolding record_pairs apply_to_trie
  apply_updates s =
      let epoch = u64 (s.epoch + 1) in
      elim (record_pairs epoch s.update_buffer s.directory) [
        | none ↦ none
        | some (d, updates) ↦
            let mpt = apply_to_trie s.mpt updates in
            some (record s {
              update_buffer = [];
              root_commitment = hash mpt;
              root_commitment_is_dirty = false;
              mpt = mpt;
              directory = d;
              keys_updated = u64 (s.keys_updated + length updates);
              epoch = epoch;
            })
      ]

  unfoldable pub new_optiks_server : List ℕ → ℕ → OptiksServer
  new_optiks_server empty_root_hash batch_size = record {
    update_buffer = [];
    root_commitment = empty_root_hash;
    root_commitment_is_dirty = false;
    mpt = new_empty;
    directory = record {
      current_versions = empty_map;
      current_key = empty_map;
      current_epoch = empty_map;
      old_keys = empty_map;
      old_epochs = empty_map;
    };
    batch_size = batch_size;
    keys_updated = 0;
    epoch = 0;
  }

  unfoldable pub put : OptiksServer → List ℕ → List ℕ → Option OptiksServer
  unfolding apply_updates
  put s user key =
      let s' = record s {
        update_buffer = s.update_buffer ++ record { user = user; key = key } ∷ [];
        root_commitment_is_dirty = true;
      } in
      if ltb 0 s'.batch_size && leb s'.batch_size (length s'.update_buffer)
      then apply_updates s'
      else some s'

  -- What Get and GetCommitment do before they answer. The two locks make no difference to one call.
  unfoldable pub flush : OptiksServer → Option OptiksServer
  unfolding apply_updates
  flush s = if s.root_commitment_is_dirty then apply_updates s else some s

  unfoldable pub get_commitment : OptiksServer → Option (List ℕ × OptiksServer)
  unfolding flush
  get_commitment s = Option.map (λ (t : OptiksServer). (t.root_commitment, t)) (flush s)
