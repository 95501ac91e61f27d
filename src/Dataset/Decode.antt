-- ===== src/Dataset/Decode.antt =====
-- The entries of a block come back from the bytes that appendBlock puts into the buffer.
use smaran.Prelude.{ℕ, zero, suc, ◌+◌, ◌%◌, ◌^◌, ◌<◌, ◌≤◌, ◌≡◌, refl, ap, ◌∙◌, arith, false}
use smaran.Prelude.{List, [], ◌∷◌, ◌++◌, length, drop, All, ltb, leb, ◌==◌, ltb_of_le}
use smaran.Prelude.{take-append, drop-append, length-append, length-drop}
use mathlib.Core.List.{append_assoc}
use native.Mathlib.Nat.{mod-eq_of_lt}
use smaran.Bytes.{le_bytes}
use smaran.Bytes.Laws.{le_value-le_bytes, length-le_bytes}
use smaran.Dataset.{Entry, Varint}
use smaran.Dataset.Writer.{entry_bytes, entries_bytes, block_bytes}
use smaran.Dataset.Reader.{ok, decode_balance, decode_entry, decode_entries, decode_block}

-- An address is an array of 20 bytes, and lengths are ints.
pub record IsEntry (e : Entry) : Type 0 where
  pub address_length : length e.address ≡ 20
  pub balance_length : length e.balance < 2 ^ 62

pub drop-drop : (m n : ℕ) (xs : List ℕ) → drop (m + n) xs ≡ drop n (drop m xs)
drop-drop zero n xs = let e : 0 + n ≡ n = omega arith in rw e refl
drop-drop (suc m) zero [] = let e : suc m + 0 ≡ suc m = omega arith in rw e refl
drop-drop (suc m) (suc n) [] = let e : suc m + suc n ≡ suc (m + suc n) = omega arith in rw e refl
drop-drop (suc m) n (x ∷ xs) =
    let e : suc m + n ≡ suc (m + n) = omega arith in rw e (drop-drop m n xs)

-- What follows the part of a buffer that has been read.
advance :
    (pos k : ℕ) (buf xs ys : List ℕ)
    → drop pos buf ≡ xs ++ ys
    → length xs ≡ k
    → drop (pos + k) buf ≡ ys
advance pos k buf xs ys at h = drop-drop pos k buf ∙ ap (drop k) at ∙ drop-append xs ys k h

-- At least as long as what is seen behind `pos`.
reaches :
    (pos : ℕ) (buf xs ys : List ℕ)
    → drop pos buf ≡ xs ++ ys
    → 0 < length xs
    → pos + length xs ≤ length buf
reaches pos buf xs ys at h =
    omega (arith, length-drop pos buf, ap (λ (l : List ℕ). length l) at, length-append xs ys)

decode_balance-ok :
    (buf bal rest : List ℕ) (pos : ℕ)
    → drop pos buf ≡ bal ++ rest
    → length buf < 2 ^ 63
    → decode_balance buf pos (length bal) ≡ ok (bal, pos + length bal)
unfolding decode_balance
decode_balance-ok buf [] rest pos at small = let e : pos + 0 ≡ pos = omega arith in rw e refl
decode_balance-ok buf (b ∷ bs) rest pos at small =
    let inside = reaches pos buf (b ∷ bs) rest at (omega arith) in
    let none_left : (suc (length bs) == 0) ≡ false = ground arith in
    let int : leb (2 ^ 63) (pos + suc (length bs)) ≡ false = ground arith in
    let fits : ltb (length buf) (pos + suc (length bs)) ≡ false = ground arith in
    rw (none_left, int, fits, at, take-append (b ∷ bs) rest (suc (length bs)) refl) refl

decode_entry-ok :
    (v : Varint) (buf rest : List ℕ) (e : Entry) (pos : ℕ)
    → IsEntry e
    → drop pos buf ≡ entry_bytes v e ++ rest
    → length buf < 2 ^ 63
    → decode_entry v buf pos ≡ ok (e, pos + length (entry_bytes v e))
unfolding decode_entry entry_bytes
decode_entry-ok v buf rest e pos good at small =
    let n = length e.balance in
    let number = v.put_uvarint n in
    let whole : n % 2 ^ 64 ≡ n = mod-eq_of_lt (omega (arith, good.balance_length)) in
    let parts : drop pos buf ≡ e.address ++ (number ++ (e.balance ++ rest)) =
      at
      ∙ rw
          (
            whole,
            append_assoc e.address (number ++ e.balance) rest,
            append_assoc number e.balance rest,
          )
          refl in
    let has : ltb (length buf) (pos + 20) ≡ false = ltb_of_le (length buf) (pos + 20) (
      omega (
        arith,
        good.address_length,
        reaches pos buf e.address (number ++ (e.balance ++ rest)) parts
            (omega (arith, good.address_length)),
      )) in
    let behind =
      advance pos 20 buf e.address (number ++ (e.balance ++ rest)) parts good.address_length in
    let read = v.uvarint-put_uvarint n (e.balance ++ rest) (omega (arith, good.balance_length)) in
    let balance =
      decode_balance-ok buf e.balance rest (pos + 20 + length number)
        (advance (pos + 20) (length number) buf number (e.balance ++ rest) behind refl) small in
    let next : pos + 20 + length number + n ≡ pos + length (e.address ++ (number ++ e.balance)) =
      omega (
        arith,
        good.address_length,
        length-append e.address (number ++ e.balance),
        length-append number e.balance,
      ) in
    rw
      (
        whole,
        has,
        behind,
        read,
        balance,
        parts,
        take-append e.address (number ++ (e.balance ++ rest)) 20 good.address_length,
        next,
      )
      refl

decode_entries-ok :
    (v : Varint) (buf rest : List ℕ) (es : List Entry) (pos : ℕ)
    → All IsEntry es
    → drop pos buf ≡ entries_bytes v es ++ rest
    → length buf < 2 ^ 63
    → decode_entries v (length es) buf pos ≡ ok es
unfolding decode_entries entries_bytes
decode_entries-ok v buf rest [] pos good at small = refl
decode_entries-ok v buf rest (e ∷ es) pos (good, more) at small =
    let tail = entries_bytes v es ++ rest in
    let here : drop pos buf ≡ entry_bytes v e ++ tail =
      at ∙ append_assoc (entry_bytes v e) (entries_bytes v es) rest in
    let behind = advance pos (length (entry_bytes v e)) buf (entry_bytes v e) tail here refl in
    let then_ok =
      decode_entries-ok v buf rest es (pos + length (entry_bytes v e)) more behind small in
    rw (decode_entry-ok v buf tail e pos good here small, then_ok) refl

-- Also where more follows the block.
pub decode_block-ok :
    (v : Varint) (es : List Entry) (rest : List ℕ)
    → All IsEntry es
    → length es < 2 ^ 32
    → length (block_bytes v es ++ rest) < 2 ^ 63
    → decode_block v (block_bytes v es ++ rest) ≡ ok es
unfolding decode_block block_bytes
decode_block-ok v es rest good few small =
    let count = le_bytes 4 (length es) in
    let tail = entries_bytes v es ++ rest in
    let whole : length es % 2 ^ 32 ≡ length es = mod-eq_of_lt few in
    let four : length count ≡ 4 = length-le_bytes 4 (length es) in
    let parts : (count ++ entries_bytes v es) ++ rest ≡ count ++ tail =
      append_assoc count (entries_bytes v es) rest in
    let enough : ltb (length (count ++ tail)) 4 ≡ false =
      ltb_of_le (length (count ++ tail)) 4 (omega (arith, length-append count tail, four)) in
    let size : length (count ++ tail) < 2 ^ 63 = rw (whole, parts) at small in
    rw (whole, parts, enough, take-append count tail 4 four, le_value-le_bytes 4 (length es) few)
      (decode_entries-ok v (count ++ tail) rest es 4 good (drop-append count tail 4 four) size)
