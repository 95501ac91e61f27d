-- ===== src/Optiks/Sample.antt =====
-- A small trie: it stores its entries in a map, and a proof lists the value of the key.
use smaran.Prelude.{
  ℕ, List, [], ◌∷◌, Map, empty_map, insert, value_or, some, ◌≡◌, ap, sym, Option, bytes_eq,
  if◌then◌else◌,
}
use smaran.Optiks.Trie.{TrieLib}

pub get_inserted :
    (t u : Map (List ℕ)) (k v j : List ℕ)
    → ◌≡◌ {A = Option (Map (List ℕ))} (some (insert k v t)) (some u)
    → u j ≡ (if bytes_eq k j then some v else t j)
get_inserted t u k v j h =
    let same : insert k v t ≡ u = cc in ap (λ (m : Map (List ℕ)). m j) (sym same)

abbrev pub sample_trie : TrieLib
sample_trie = record {
  Trie = Map (List ℕ);
  new_empty = empty_map;
  update = λ t k v. some (insert k v t);
  hash = λ t. value_or [] (t (1 ∷ []));
  get = λ t k. t k;
  prove = λ t k. some ((128 ∷ []) ∷ value_or [] (t k) ∷ []);
  encode = λ v. some (131 ∷ v);
  get-update = get_inserted;
}
