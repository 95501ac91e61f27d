-- ===== src/Samurai/Runs.antt =====
-- Runs of the server on the small trie and the small group.
use smaran.Prelude.{ℕ, ◌≡◌, refl, some, List, [], ◌∷◌, insert, empty_map, length, bytes_eq}
use smaran.Account.{AccountInfo, new_account_info}
use smaran.Optiks.Key.{make_samurai_trie_key}
use smaran.Optiks.Query.{panic}
use smaran.Samurai.{Services, SamuraiKtServer}
use smaran.Samurai.Apply.{new_samurai_kt_server}
use mathlib.Core.Option
use smaran.Optiks.Update.{KvPair}
use smaran.Samurai.Proofs.{get_result}
use smaran.Samurai.First.{get_result-first}
use smaran.Account.Sample.{sample_curve}
use smaran.Optiks.Sample.{sample_trie}

abbrev services : Services
services = record {
  lib = sample_trie;
  crypto = sample_curve;
  bytes_to_address = λ user. user;
  open_nodes = λ t nodes. length nodes;
}

abbrev alice : List ℕ
alice = 97 ∷ 108 ∷ []

abbrev bob : List ℕ
bob = 98 ∷ []

abbrev waiting : SamuraiKtServer services
waiting = record (new_samurai_kt_server services [] 10) {
  update_buffer =
      record { user = alice; key = 1 ∷ [] }
      ∷ record { user = bob; key = 2 ∷ [] }
      ∷ record { user = alice; key = 3 ∷ [] }
      ∷ [];
}

-- The worker of bob is the first to run.
abbrev bob_first : List KvPair
bob_first =
    record { user = bob; key = 2 ∷ [] }
    ∷ record { user = alice; key = 1 ∷ [] }
    ∷ record { user = alice; key = 3 ∷ [] }
    ∷ []

abbrev opened : AccountInfo services.crypto
opened = record (new_account_info services.crypto alice) {
  current_balance_info = some (record { version = 0; balance = 50; start_block = 1 });
}

-- A user put a single key, which the server has applied.
abbrev single : SamuraiKtServer services
single = record (new_samurai_kt_server services [] 10) {
  samurai_accounts = insert alice opened empty_map;
  current_version = insert alice 1 empty_map;
}

one : single.current_version alice ≡ some 1
unfolding bytes_eq
one = refl

held : single.samurai_accounts alice ≡ some opened
unfolding bytes_eq
held = refl

fresh : opened.historical_balances ≡ []
unfolding new_account_info
fresh = refl

proved : services.lib.prove single.mpt (make_samurai_trie_key alice) ≡ some ((128 ∷ []) ∷ [] ∷ [])
unfolding new_samurai_kt_server
proved = refl

get_result-first_example : get_result services single alice ≡ panic
get_result-first_example =
    get_result-first services single alice opened ((128 ∷ []) ∷ [] ∷ []) one proved held fresh
