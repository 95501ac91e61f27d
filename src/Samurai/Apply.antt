-- ===== src/Samurai/Apply.antt =====
-- Put, GetCommitment and applyUpdates.
-- The workers run the updates of one user in the order of the buffer, and those of different users in any
-- order. Here all updates run in the order of the list that run_updates gets; applyUpdates gives it the
-- buffer, and Samurai/Orders.antt has the other orders. One update is one step: where two users of the
-- buffer share an address, two workers may write one account at once, which no order of steps describes.
use smaran.Prelude.{
  ℕ, ◌+◌, ◌%◌, ◌^◌, Bool, true, false, ◌&&◌, ◌||◌, Option, some, none, List, [], ◌∷◌, ◌++◌,
}
use smaran.Prelude.{length, ltb, leb, if◌then◌else◌, empty_map, insert, value_or, bytes_eq}
use mathlib.Core.Option
use smaran.Bytes.{be_bytes}
use smaran.Account.{AccountInfo, new_account_info, update_in_memory}
use smaran.Optiks.Key.{make_samurai_trie_key}
use smaran.Optiks.Update.{KvPair}
use smaran.Samurai.{Services, SamuraiKtServer}

-- updatedAccounts as the list of its users, each once.
unfoldable pub contains_user : List ℕ → List (List ℕ) → Bool
contains_user user [] = false
contains_user user (u ∷ us) = bytes_eq user u || contains_user user us

unfoldable pub add_user : List ℕ → List (List ℕ) → List (List ℕ)
unfolding contains_user
add_user user us = if contains_user user us then us else us ++ user ∷ []

unfoldable pub updated_users : List (List ℕ) → List KvPair → List (List ℕ)
unfolding add_user
updated_users us [] = us
updated_users us (pair ∷ pairs) = updated_users (add_user pair.user us) pairs

module _ (sv : Services) where
  unfoldable pub new_samurai_kt_server : List ℕ → ℕ → SamuraiKtServer sv
  new_samurai_kt_server empty_root_hash batch_size = record {
    update_buffer = [];
    root_commitment = empty_root_hash;
    root_commitment_is_dirty = false;
    mpt = sv.lib.new_empty;
    samurai_accounts = empty_map;
    current_key = empty_map;
    current_version = empty_map;
    batch_size = batch_size;
    keys_updated = 0;
    epoch = 0;
  }

  unfoldable pub get_account_or_create : List ℕ → SamuraiKtServer sv → AccountInfo sv.crypto
  unfolding new_account_info
  get_account_or_create account s =
      value_or (new_account_info sv.crypto account) (s.samurai_accounts account)

  -- The first loop, one pair.
  unfoldable pub note_pair : KvPair → SamuraiKtServer sv → SamuraiKtServer sv
  unfolding get_account_or_create
  note_pair pair s =
      let account = sv.bytes_to_address pair.user in
      record s {
        current_key = insert pair.user pair.key s.current_key;
        current_version =
            insert pair.user ((value_or 0 (s.current_version pair.user) + 1) % 2 ^ 64)
              s.current_version;
        samurai_accounts = insert account (get_account_or_create account s) s.samurai_accounts;
      }

  unfoldable pub note_pairs : List KvPair → SamuraiKtServer sv → SamuraiKtServer sv
  unfolding note_pair
  note_pairs [] s = s
  note_pairs (pair ∷ pairs) s = note_pairs pairs (note_pair pair s)

  -- What the workers do with the pairs, one after the other; `none` is a panic of UpdateInMemory. The first loop has made every
  -- account that is looked up here.
  unfoldable pub run_updates : ℕ → List KvPair → SamuraiKtServer sv → Option (SamuraiKtServer sv)
  unfolding get_account_or_create
  run_updates epoch [] s = some s
  run_updates epoch (pair ∷ pairs) s =
      let account = sv.bytes_to_address pair.user in
      Option.bind
        (update_in_memory sv.crypto 1 epoch (sv.crypto.bytes_to_hash pair.key)
          (get_account_or_create account s))
        (λ ai.
          run_updates epoch pairs
            (record s { samurai_accounts = insert account ai s.samurai_accounts }))

  -- The last loop; an error leaves the trie as it is.
  unfoldable pub write_users : List (List ℕ) → SamuraiKtServer sv → sv.lib.Trie → sv.lib.Trie
  unfolding get_account_or_create make_samurai_trie_key
  write_users [] s t = t
  write_users (user ∷ us) s t =
      let ai = get_account_or_create (sv.bytes_to_address user) s in
      let commitment_hash = sv.crypto.commitment_to_hash (ai.current_lx_batch_commitment 0) in
      write_users us s (elim (sv.lib.encode (be_bytes 32 commitment_hash)) [
        | none ↦ t
        | some value ↦ value_or t (sv.lib.update t (make_samurai_trie_key user) value)
      ])

  unfoldable pub finish : List KvPair → SamuraiKtServer sv → SamuraiKtServer sv
  unfolding updated_users write_users
  finish pairs s =
      let mpt = write_users (updated_users [] pairs) s s.mpt in
      record s {
        update_buffer = [];
        mpt = mpt;
        root_commitment = sv.lib.hash mpt;
        keys_updated = (s.keys_updated + length pairs) % 2 ^ 64;
      }

  unfoldable pub apply_updates : SamuraiKtServer sv → Option (SamuraiKtServer sv)
  unfolding note_pairs run_updates finish
  apply_updates s =
      let epoch = (s.epoch + 1) % 2 ^ 64 in
      let noted =
        note_pairs s.update_buffer (record s { root_commitment_is_dirty = false; epoch = epoch }) in
      Option.map (finish s.update_buffer) (run_updates epoch s.update_buffer noted)

  unfoldable pub put : SamuraiKtServer sv → List ℕ → List ℕ → Option (SamuraiKtServer sv)
  unfolding apply_updates
  put s user key =
      let s' = record s {
        update_buffer = s.update_buffer ++ record { user = user; key = key } ∷ [];
        root_commitment_is_dirty = true;
      } in
      if ltb 0 s'.batch_size && leb s'.batch_size (length s'.update_buffer)
      then apply_updates s'
      else some s'

  -- The beginning of Get and GetCommitment.
  unfoldable pub flush : SamuraiKtServer sv → Option (SamuraiKtServer sv)
  unfolding apply_updates
  flush s = if s.root_commitment_is_dirty then apply_updates s else some s

  unfoldable pub get_commitment : SamuraiKtServer sv → Option (List ℕ × SamuraiKtServer sv)
  unfolding flush
  get_commitment s = Option.map (λ t. (t.root_commitment, t)) (flush s)
