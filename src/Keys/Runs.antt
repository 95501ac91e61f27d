-- ===== src/Keys/Runs.antt =====
-- Concrete keys and balances.
use smaran.Prelude.{
  ℕ, ◌-◌, ◌^◌, ◌≡◌, refl, arith, List, replicate, some, length, take, Map, empty_map,
}
use smaran.Keys.{
  pos, negsuc, packed, overflow, negative, pack_basic_data, unpack_balance, get_tree_key,
  get_tree_key_for_basic_data, address_20_to_32, basic_data_leaf_key,
}
use smaran.Keys.RoundTrip.{unpack-pack_basic_data}
use smaran.Keys.Cache.{IsCache, empty_map-IsCache, get_tree_key_for_basic_data-IsCache}
use smaran.Keys.Sample.{numbers}

unpack-pack_basic_data_example :
    (val : List ℕ) × (pack_basic_data (some (pos 1800)) ≡ packed val)
    × (length val ≡ 32)
    × (take 16 val ≡ replicate 16 0)
    × (unpack_balance val ≡ 1800)
unpack-pack_basic_data_example = unpack-pack_basic_data 1800 (omega arith)

-- The errors: too many bits before a sign.
refused :
    (pack_basic_data (some (pos (2 ^ 128))) ≡ overflow)
    × (pack_basic_data (some (negsuc 0)) ≡ negative)
    × (pack_basic_data (some (negsuc (2 ^ 128 - 1))) ≡ overflow)
unfolding pack_basic_data
refused = (refl, refl, refl)

get_tree_key_for_basic_data-IsCache_example :
    (key : List ℕ) × (cache' : Map (List ℕ)) × (get_tree_key_for_basic_data numbers empty_map
        (replicate 20 1)
      ≡ some (key, cache'))
    × (get_tree_key numbers (address_20_to_32 (replicate 20 1)) 0 basic_data_leaf_key ≡ some key)
    × (length key ≡ 32)
    × IsCache numbers cache'
get_tree_key_for_basic_data-IsCache_example =
    get_tree_key_for_basic_data-IsCache numbers empty_map (replicate 20 1) refl
      (empty_map-IsCache numbers)
