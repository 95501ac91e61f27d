-- ===== src/Keys/Sample.antt =====
-- Numbers in place of a field and a curve.
use smaran.Prelude.{ℕ, ◌+◌, refl, some, get_or}
use smaran.Bytes.{le_value, be_bytes}
use smaran.Bytes.Laws.{length-be_bytes}
use smaran.Keys.{GoVerkle}

abbrev pub numbers : GoVerkle
numbers = record {
  Fr = ℕ;
  Point = ℕ;
  zero_fr = 0;
  set_uint64 = λ n. n;
  from_le_bytes = λ bs. some (le_value bs);
  commit_to_poly = λ poly. get_or poly 1 0 + get_or poly 2 0;
  hash_point_to_bytes = λ p. be_bytes 32 p;
  from_le_bytes-some = λ bs len. (le_value bs, refl);
  length-hash_point_to_bytes = λ p. length-be_bytes 32 p;
}
