-- ===== src/Meta/Runs.antt =====
-- Runs on a database that is a map.
use smaran.Prelude.{
  ℕ, ◌≡◌, refl, ap, sym, arith, true, Option, some, List, replicate, Map, empty_map, insert,
}
use smaran.Prelude.{◌==◌, bytes_eq, if◌then◌else◌}
use smaran.Bytes.{be_bytes}
use smaran.Meta.{Database, put_root, get_root, put_last, get_last, get_start, root_key, key_last}
use smaran.Meta.Laws.{get_root-put_root}

get_inserted :
    (t u : Map (List ℕ)) (k v j : List ℕ)
    → ◌≡◌ {A = Option (Map (List ℕ))} (some (insert k v t)) (some u)
    → u j ≡ (if bytes_eq k j then some v else t j)
get_inserted t u k v j h =
    let same : insert k v t ≡ u = cc in ap (λ (m : Map (List ℕ)). m j) (sym same)

abbrev maps : Database
maps = record {
  Store = Map (List ℕ);
  put = λ s k v. some (insert k v s);
  get = λ s k. s k;
  has = λ s k. some true;
  bytes_to_hash = λ v. v;
  get-put = get_inserted;
  bytes_to_hash_whole = λ v h. refl;
}

abbrev root : List ℕ
root = replicate 32 7

abbrev rooted : Map (List ℕ)
rooted = insert (root_key 12) root empty_map

put_root_run : put_root maps empty_map 12 root ≡ some rooted
unfolding put_root
put_root_run = refl

get_root-put_root_example :
    (get_root maps rooted 12 ≡ (if 12 == 12 then some root else get_root maps empty_map 12))
    × (get_last maps rooted ≡ get_last maps empty_map)
    × (get_start maps rooted ≡ get_start maps empty_map)
get_root-put_root_example =
    get_root-put_root maps empty_map rooted 12 12 root (omega arith) (omega arith) refl put_root_run

abbrev reached : Map (List ℕ)
reached = insert key_last (be_bytes 8 12) rooted

put_last_run : put_last maps rooted 12 ≡ some reached
unfolding put_last
put_last_run = refl
