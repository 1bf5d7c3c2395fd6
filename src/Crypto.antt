-- ===== src/Crypto.antt =====
-- firmware/components/core/mc_crypto.c over the vendored TweetNaCl, which is a parameter: `Nacl` has
-- the two calls that the firmware makes of it. `mc_crypto_random` is a parameter where it is used.
-- The key generation and signing that only host tests call are not modelled.
pub mod Streaming
pub mod Tests
use moto_ctrl.Base.{
  ℕ, ◌+◌, ◌-◌, ◌*◌, ◌/◌, ◌%◌, ◌^◌, min, Bool, false, List, [], ◌∷◌, ◌++◌, ltb, leb, if◌then◌else◌,
  length, take, drop, replicate,
}

-- `crypto_hashblocks(h, data, len)` gives the new state and the count of bytes left over;
-- `crypto_sign_open` gives whether it returned 0.
pub record Nacl : Type 0 where
  pub hashblocks : List ℕ → List ℕ → List ℕ × ℕ
  pub sign_open : List ℕ → List ℕ → Bool

abbrev pub max_msg : ℕ
max_msg = 128

-- `mc_crypto_hash_ctx_t`; `block` is the first `block_len` bytes of the buffer.
pub record HashCtx : Type 0 where
  pub h : List ℕ
  pub block : List ℕ
  pub total_len : ℕ

-- `sha512_iv`
abbrev pub sha512_iv : List ℕ
sha512_iv =
    0x6a ∷ 0x09 ∷ 0xe6 ∷ 0x67 ∷ 0xf3 ∷ 0xbc ∷ 0xc9 ∷ 0x08 ∷ 0xbb ∷ 0x67 ∷ 0xae ∷ 0x85 ∷ 0x84 ∷ 0xca
    ∷ 0xa7 ∷ 0x3b ∷ 0x3c ∷ 0x6e ∷ 0xf3 ∷ 0x72 ∷ 0xfe ∷ 0x94 ∷ 0xf8 ∷ 0x2b ∷ 0xa5 ∷ 0x4f ∷ 0xf5
    ∷ 0x3a ∷ 0x5f ∷ 0x1d ∷ 0x36 ∷ 0xf1 ∷ 0x51 ∷ 0x0e ∷ 0x52 ∷ 0x7f ∷ 0xad ∷ 0xe6 ∷ 0x82 ∷ 0xd1
    ∷ 0x9b ∷ 0x05 ∷ 0x68 ∷ 0x8c ∷ 0x2b ∷ 0x3e ∷ 0x6c ∷ 0x1f ∷ 0x1f ∷ 0x83 ∷ 0xd9 ∷ 0xab ∷ 0xfb
    ∷ 0x41 ∷ 0xbd ∷ 0x6b ∷ 0x5b ∷ 0xe0 ∷ 0xcd ∷ 0x19 ∷ 0x13 ∷ 0x7e ∷ 0x21 ∷ 0x79 ∷ []

-- `store_u64_be`: the loop fills `p[7]` first, so each round puts a byte before those it has written.
unfoldable pub store_be : ℕ → ℕ → List ℕ → List ℕ
store_be ℕ.zero v done = done
store_be (ℕ.suc n) v done = store_be n (v / 256) ((v % 256) ∷ done)

unfoldable pub store_u64_be : ℕ → List ℕ
unfolding store_be
store_u64_be v = store_be 8 v []

-- `mc_crypto_hash_sha512_init`
unfoldable pub hash_init : HashCtx
hash_init = record { h = sha512_iv; block = []; total_len = 0 }

-- The last part of `mc_crypto_hash_sha512_update`: what is left is kept for the next call.
unfoldable pub keep_rest : List ℕ → HashCtx → HashCtx
keep_rest rest ctx = if ltb 0 (length rest) then record ctx { block = rest } else ctx

-- `mc_crypto_hash_sha512_update` once no partial block is left over from an earlier call.
unfoldable pub hash_blocks : Nacl → List ℕ → HashCtx → HashCtx
unfolding keep_rest
hash_blocks nacl bytes ctx =
    let (h', rem) = nacl.hashblocks ctx.h bytes in
    if leb 128 (length bytes)
    then keep_rest (drop (length bytes - rem) bytes) (record ctx { h = h' })
    else keep_rest bytes ctx

-- `mc_crypto_hash_sha512_update`
unfoldable pub hash_update : Nacl → HashCtx → List ℕ → HashCtx
unfolding hash_blocks
hash_update nacl ctx bytes =
    let counted = record ctx { total_len = (ctx.total_len + length bytes) % 2 ^ 64 } in
    let n = min (length bytes) (128 - length ctx.block) in
    let block = ctx.block ++ take n bytes in
    if ltb 0 (length ctx.block)
    then (if ltb (length block) 128
        then record counted { block = block }
        else hash_blocks nacl (drop n bytes)
            (record counted { h = (nacl.hashblocks ctx.h block).0; block = [] }))
    else hash_blocks nacl bytes counted

-- The padded last block, or two, of `mc_crypto_hash_sha512_final`.
unfoldable pub padded : HashCtx → List ℕ
unfolding store_u64_be
padded ctx =
    let n : ℕ = if ltb (length ctx.block) 112 then 128 else 256 in
    ctx.block
    ++ 0x80 ∷ replicate (n - 10 - length ctx.block) 0
    ++ (ctx.total_len / 2 ^ 61) % 256 ∷ store_u64_be ((ctx.total_len * 8) % 2 ^ 64)

-- `mc_crypto_hash_sha512_final`
unfoldable pub hash_final : Nacl → HashCtx → List ℕ
unfolding padded
hash_final nacl ctx = (nacl.hashblocks ctx.h (padded ctx)).0

-- `mc_crypto_hash_sha512`, which always returns true
unfoldable pub hash_sha512 : Nacl → List ℕ → List ℕ
unfolding hash_init hash_update hash_final
hash_sha512 nacl msg = hash_final nacl (hash_update nacl hash_init msg)

-- `mc_crypto_verify`
unfoldable pub verify : Nacl → List ℕ → List ℕ → List ℕ → Bool
verify nacl pubkey msg sig =
    if ltb max_msg (length msg) then false else nacl.sign_open (sig ++ msg) pubkey
