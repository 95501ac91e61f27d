-- ===== src/Balance/RoundTrip.antt =====
-- The codecs of balance.go read back what they wrote.
use smaran.Prelude.{
  ℕ, ◌+◌, ◌-◌, ◌^◌, ◌≤◌, ◌<◌, ◌≡◌, refl, ap, ◌∙◌, sym, arith, some, List, [], ◌++◌,
}
use smaran.Prelude.{length, take, drop, replicate, length-append, length-replicate}
use smaran.Prelude.{take-append, drop-append}
use mathlib.Core.List.{append_assoc, append-nil}
use smaran.Bytes.{be_bytes, big_bytes, blit}
use smaran.Bytes.Laws.{be_value-be_bytes, length-be_bytes, be_value-zeros, be_value-big_bytes}
use smaran.Bytes.Laws.{length-big_bytes, blit-append, replicate-append}
use smaran.Balance.{
  CurrentBalance, HistoricalBalance, marshal_current, read_current, unmarshal_current,
}
use smaran.Balance.{marshal_historical, unmarshal_historical}

-- The values that the machine words and the 32 bytes of a balance hold.
pub record Fits (cb : CurrentBalance) : Type 0 where
  pub version_fits : cb.version < 256 ^ 8
  pub balance_fits : cb.balance < 256 ^ 32
  pub start_fits : cb.start_block < 256 ^ 8

-- The writes of MarshalBinary: three fields, the middle one padded to 32 bytes.
module _ (v b s : List ℕ) (hv : length v ≡ 8) (hb : length b ≤ 32) (hs : length s ≡ 8) where
  zeros : List ℕ
  zeros = replicate (32 - length b) 0

  first_write : blit 0 v (replicate 48 0) ≡ v ++ replicate 40 0
  first_write = blit-append 0 v [] (replicate 8 0) (replicate 40 0) refl (sym hv)

  padding : replicate 40 0 ≡ zeros ++ (replicate (length b) 0 ++ replicate 8 0)
  unfolding zeros
  padding =
      let e : 40 ≡ 32 - length b + (length b + 8) = omega arith in
      ap (λ (k : ℕ). replicate k 0) e
      ∙ replicate-append (32 - length b) (length b + 8) 0
      ∙ ap (◌++◌ (replicate (32 - length b) 0)) (replicate-append (length b) 8 0)

  length-front : length (v ++ zeros) ≡ 40 - length b
  unfolding zeros
  length-front = omega (
    arith,
    length-append v (replicate (32 - length b) 0),
    length-replicate {0} {A = ℕ} (32 - length b) 0,
  )

  second_write : blit (40 - length b) b (v ++ replicate 40 0) ≡ (v ++ zeros) ++ (b ++ replicate 8 0)
  second_write =
      rw (padding, ← append_assoc v zeros (replicate (length b) 0 ++ replicate 8 0))
        (blit-append (40 - length b) b (v ++ zeros) (replicate (length b) 0) (replicate 8 0)
          length-front (length-replicate (length b) 0))

  third_write : blit 40 s ((v ++ zeros) ++ (b ++ replicate 8 0)) ≡ v ++ ((zeros ++ b) ++ s)
  third_write =
      let size : length ((v ++ zeros) ++ b) ≡ 40 =
        omega (arith, length-append (v ++ zeros) b, length-front) in
      rw (← append_assoc (v ++ zeros) b (replicate 8 0)) (
        blit-append 40 s ((v ++ zeros) ++ b) (replicate 8 0) [] size (sym hs)
        ∙ simp (append-nil, append_assoc))

  fields : blit 40 s (blit (40 - length b) b (blit 0 v (replicate 48 0))) ≡ v ++ ((zeros ++ b) ++ s)
  fields = rw (first_write, second_write) third_write

  length-fields : length (v ++ ((zeros ++ b) ++ s)) ≡ 48
  length-fields = omega (
    arith,
    length-append v ((zeros ++ b) ++ s),
    length-append (zeros ++ b) s,
    length-append zeros b,
    length-append v zeros,
    length-front,
  )

  take_first : take 8 (v ++ ((zeros ++ b) ++ s)) ≡ v
  take_first = take-append v ((zeros ++ b) ++ s) 8 hv

  size_second : length (zeros ++ b) ≡ 32
  size_second = omega (arith, length-append zeros b, length-append v zeros, length-front)

  take_second : take 32 (drop 8 (v ++ ((zeros ++ b) ++ s))) ≡ zeros ++ b
  take_second =
      rw (drop-append v ((zeros ++ b) ++ s) 8 hv) (take-append (zeros ++ b) s 32 size_second)

  take_third : take 8 (drop 40 (v ++ ((zeros ++ b) ++ s))) ≡ s
  take_third =
      let front : length (v ++ (zeros ++ b)) ≡ 40 =
        omega (arith, length-append v (zeros ++ b), size_second) in
      rw (← append_assoc v (zeros ++ b) s, drop-append (v ++ (zeros ++ b)) s 40 front)
        (ap (take 8) (sym (append-nil s)) ∙ take-append s [] 8 hs)

module _ (m e : List ℕ) (hm : length m ≡ 48) (he : length e ≡ 8) where
  last_write : blit 48 e (m ++ replicate 8 0) ≡ m ++ e
  last_write = blit-append 48 e m (replicate 8 0) [] hm (sym he) ∙ ap (◌++◌ m) (append-nil e)

  last_read : take 8 (drop 48 (m ++ e)) ≡ e
  last_read = rw (drop-append m e 48 hm) (ap (take 8) (sym (append-nil e)) ∙ take-append e [] 8 he)

module _ (cb : CurrentBalance) (f : Fits cb) where
  b-le : length (big_bytes cb.balance) ≤ 32
  b-le = length-big_bytes cb.balance 32 f.balance_fits

  pub length-marshal_current : length (marshal_current cb) ≡ 48
  unfolding marshal_current
  length-marshal_current = rw (fields _ _ _ hv b-le hs) (length-fields _ _ _ hv b-le hs)
    where
      hv : length (be_bytes 8 cb.version) ≡ 8
      hv = length-be_bytes 8 cb.version

      hs : length (be_bytes 8 cb.start_block) ≡ 8
      hs = length-be_bytes 8 cb.start_block

  pub read-marshal_current : read_current (marshal_current cb) ≡ cb
  unfolding marshal_current read_current zeros
  read-marshal_current =
      let hv = length-be_bytes 8 cb.version in
      let hs = length-be_bytes 8 cb.start_block in
      rw (
        fields _ _ _ hv b-le hs,
        take_first _ _ _ hv b-le hs,
        take_second _ _ _ hv b-le hs,
        take_third _ _ _ hv b-le hs,
        be_value-be_bytes 8 cb.version f.version_fits,
        be_value-be_bytes 8 cb.start_block f.start_fits,
        be_value-zeros (32 - length (big_bytes cb.balance)) (big_bytes cb.balance),
        be_value-big_bytes cb.balance,
      )

  -- A current balance whose fields fit their bytes comes back from its 48 bytes.
  pub unmarshal-marshal_current : unmarshal_current (marshal_current cb) ≡ some cb
  unfolding unmarshal_current
  unmarshal-marshal_current = rw (length-marshal_current, read-marshal_current)

-- A historical balance whose fields fit their bytes comes back from its 56 bytes.
pub unmarshal-marshal_historical :
    (hb : HistoricalBalance)
    → Fits hb.current
    → hb.end_block < 256 ^ 8
    → unmarshal_historical (marshal_historical hb) ≡ some hb
unfolding unmarshal_historical marshal_historical
unmarshal-marshal_historical hb f h =
    let inner = length-marshal_current hb.current f in
    let he = length-be_bytes 8 hb.end_block in
    rw (
      blit-append 0 (marshal_current hb.current) [] (replicate 48 0) (replicate 8 0) refl
          (sym inner),
      last_write (marshal_current hb.current) (be_bytes 8 hb.end_block) inner he,
      length-append (marshal_current hb.current) (be_bytes 8 hb.end_block),
      inner,
      he,
      take-append (marshal_current hb.current) (be_bytes 8 hb.end_block) 48 inner,
      last_read (marshal_current hb.current) (be_bytes 8 hb.end_block) inner he,
      read-marshal_current hb.current f,
      be_value-be_bytes 8 hb.end_block h,
    )
