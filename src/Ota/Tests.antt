-- ===== src/Ota/Tests.antt =====
-- An update of three bytes in two chunks, with a toy hash.
use moto_ctrl.Base.{◌≡◌, refl, true, List, ℕ, [], ◌∷◌, ◌%◌, ◌≤◌, length, take, drop, replicate}
use moto_ctrl.Crypto.{
  sha512_iv, hash_sha512, Nacl, store_be, store_u64_be, hash_init, keep_rest, hash_blocks,
  hash_update, padded, hash_final, verify,
}
use moto_ctrl.Base.{same_bytes}
use moto_ctrl.Ota.Transfer.{OtaHal, max_image_size, init, call, succeeds, begin, chunk, commit}
use moto_ctrl.Ota.Image.{
  begin_update, send_chunk, commit_update, image, in_order, digest, OtaOp, step, run,
}
use moto_ctrl.Ota.Committed.{run-committed}
use moto_ctrl.Ota.Signed.{run-signed}
use moto_ctrl.Crypto.Tests.{counting, counting-IsBlockwise}

abbrev toy : Nacl
toy = record {
  hashblocks = λ h bytes. (take 5 bytes, length bytes % 128);
  sign_open = λ msg key. true;
}

abbrev release_key : List ℕ
release_key = 5 ∷ []

abbrev board : OtaHal
board = record {
  has_begin = true;
  has_write = true;
  has_finalize = true;
  has_abort = true;
  has_reboot = true;
  answer = λ calls c. true;
}

-- What the toy hash gives for the image.
abbrev image_digest : List ℕ
image_digest = 10 ∷ 20 ∷ 30 ∷ 0x80 ∷ 0 ∷ []

abbrev update_ops : List OtaOp
update_ops =
    begin_update 3 image_digest (replicate 64 1) true
    ∷ send_chunk 0 (10 ∷ 20 ∷ [])
    ∷ send_chunk 2 (30 ∷ [])
    ∷ commit_update
    ∷ []

run-committed_example :
    let ota = run toy update_ops (init board release_key) in
    (length (image ota.calls) ≡ ota.image_size)
    × (in_order ota.calls ≡ true)
    × (ota.image_size ≤ max_image_size)
    × (hash_final toy (digest toy ota.calls) ≡ ota.declared_sha512)
    × ((signature : List ℕ) × (verify toy release_key ota.declared_sha512 signature ≡ true))
unfolding run step begin chunk commit call succeeds init verify hash_init hash_update hash_blocks
    keep_rest hash_final padded store_u64_be store_be same_bytes
run-committed_example = run-committed toy board release_key update_ops refl refl refl

-- The same bytes under the hash that counts its blocks.
abbrev counted_digest : List ℕ
counted_digest = 107 ∷ drop 1 sha512_iv

abbrev counted_ops : List OtaOp
counted_ops =
    begin_update 3 counted_digest (replicate 64 1) true
    ∷ send_chunk 0 (10 ∷ 20 ∷ [])
    ∷ send_chunk 2 (30 ∷ [])
    ∷ commit_update
    ∷ []

run-signed_example :
    let ota = run counting counted_ops (init board release_key) in
    (hash_sha512 counting (image ota.calls) ≡ ota.declared_sha512)
    × ((signature : List ℕ) × (verify counting release_key ota.declared_sha512 signature ≡ true))
unfolding run step begin chunk commit call succeeds init verify hash_init hash_update hash_blocks
    keep_rest hash_final padded store_u64_be store_be same_bytes
run-signed_example =
    run-signed counting board release_key counted_ops counting-IsBlockwise refl refl refl
