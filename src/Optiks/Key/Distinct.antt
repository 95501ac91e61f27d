-- ===== src/Optiks/Key/Distinct.antt =====
-- The trie keys of users of one length.
use smaran.Prelude.{
  ℕ, ◌+◌, ◌-◌, ◌^◌, ◌≤◌, ◌<◌, ◌≡◌, refl, sym, ap, ◌∙◌, arith, some, false, List, [], ◌++◌,
}
use smaran.Prelude.{length, replicate, take, drop, take-append, drop-append, length-replicate, ltb}
use smaran.Bytes.{be_bytes, be_value}
use smaran.Bytes.Laws.{be_value-be_bytes, length-be_bytes, blit-append, replicate-append}
use smaran.Optiks.Key.{make_trie_key}

abbrev key_bytes : List ℕ → ℕ → List ℕ
key_bytes user version = user ++ (be_bytes 8 version ++ replicate (24 - length user) 0)

zeros_split :
    (n : ℕ)
    → n + 8 ≤ 32
    → replicate {A = ℕ} 32 0 ≡ replicate n 0 ++ (replicate 8 0 ++ replicate (24 - n) 0)
zeros_split n h =
    let whole : ◌≡◌ {A = ℕ} 32 (n + (8 + (24 - n))) = omega arith in
    ap (λ k. replicate {A = ℕ} k 0) whole
    ∙ replicate-append n (8 + (24 - n)) 0
    ∙ ap (◌++◌ (replicate n 0)) (replicate-append 8 (24 - n) 0)

make_trie_key-bytes :
    (user : List ℕ) (version : ℕ)
    → length user + 8 ≤ 32
    → make_trie_key user version ≡ some (key_bytes user version)
unfolding make_trie_key
make_trie_key-bytes user version h =
    let n = length user in
    let fits : ltb 32 (n + 8) ≡ false = ground arith in
    let tail = replicate {A = ℕ} 8 0 ++ replicate (24 - n) 0 in
    rw
      (
        fits,
        zeros_split n h,
        blit-append 0 user [] (replicate n 0) tail refl (length-replicate n 0),
        blit-append n (be_bytes 8 version) user (replicate 8 0) (replicate (24 - n) 0) refl
            (sym (length-be_bytes 8 version)),
      )
      refl

-- Two users of one length, which with the 8 bytes of a version fits into 32, have a key in common only if
-- they are the same user with the same version, for versions below 256 ^ 8.
pub make_trie_key-distinct :
    (user other : List ℕ) (version w : ℕ)
    → length user ≡ length other
    → length user + 8 ≤ 32
    → version < 256 ^ 8
    → w < 256 ^ 8
    → make_trie_key user version ≡ make_trie_key other w
    → (user ≡ other) × (version ≡ w)
make_trie_key-distinct user other version w same fits hv hw h =
    let n = length user in
    let e : key_bytes user version ≡ key_bytes other w =
      cc (make_trie_key-bytes user version fits, make_trie_key-bytes other w (omega arith), h) in
    let users : user ≡ other =
      sym (take-append user _ n refl) ∙ ap (take n) e ∙ take-append other _ n (sym same) in
    let rests : be_bytes 8 version ++ replicate (24 - n) 0
        ≡ be_bytes 8 w ++ replicate (24 - length other) 0 =
      sym (drop-append user _ n refl) ∙ ap (drop n) e ∙ drop-append other _ n (sym same) in
    let versions : be_bytes 8 version ≡ be_bytes 8 w =
      sym (take-append (be_bytes 8 version) _ 8 (length-be_bytes 8 version))
      ∙ ap (take 8) rests
      ∙ take-append (be_bytes 8 w) _ 8 (length-be_bytes 8 w) in
    (users, sym (be_value-be_bytes 8 version hv) ∙ ap be_value versions ∙ be_value-be_bytes 8 w hw)
