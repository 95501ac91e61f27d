-- ===== src/Bytes.antt =====
-- Byte strings: encoding/binary's BigEndian and math/big's Bytes and SetBytes, which the codecs use.
pub mod Laws
use smaran.Prelude.{ℕ, zero, suc, ◌+◌, ◌*◌, ◌/◌, ◌%◌, ◌^◌, List, [], ◌∷◌, ◌++◌}
use smaran.Prelude.{length, take, drop, ◌==◌, if◌then◌else◌}
use mathlib.Core.List.{foldl}

-- The `k` lowest bytes of a number, the highest first: PutUint64 at k = 8.
unfoldable pub be_bytes : ℕ → ℕ → List ℕ
be_bytes zero n = []
be_bytes (suc k) n = n / 256 ^ k % 256 ∷ be_bytes k n

-- BigEndian.Uint64 on 8 bytes, and big.Int.SetBytes.
unfoldable pub be_value : List ℕ → ℕ
be_value = foldl (λ acc b. acc * 256 + b) 0

-- big.Int.Bytes: no leading zero. The fuel is the number itself, which is more than it has bytes.
unfoldable pub big_bytes_loop : ℕ → ℕ → List ℕ → List ℕ
big_bytes_loop zero n acc = acc
big_bytes_loop (suc fuel) n acc =
    let rest = big_bytes_loop fuel (n / 256) (n % 256 ∷ acc) in if n == 0 then acc else rest

unfoldable pub big_bytes : ℕ → List ℕ
unfolding big_bytes_loop
big_bytes n = big_bytes_loop n n []

-- copy(out[offset:offset+len(bs)], bs)
unfoldable pub blit : ℕ → List ℕ → List ℕ → List ℕ
blit offset bs out = take offset out ++ (bs ++ drop (offset + length bs) out)

-- The `k` lowest bytes of a number, the lowest first: PutUint32 at k = 4 and PutUint64 at k = 8.
unfoldable pub le_bytes : ℕ → ℕ → List ℕ
le_bytes zero n = []
le_bytes (suc k) n = n % 256 ∷ le_bytes k (n / 256)

-- LittleEndian.Uint32 and Uint64, on the bytes they read.
unfoldable pub le_value : List ℕ → ℕ
le_value [] = 0
le_value (b ∷ bs) = b + 256 * le_value bs
