-- ===== src/Ota/Signed.antt =====
-- The hash that a committed update was checked against is that of the image.
use moto_ctrl.Base.{◌≡◌, refl, sym, ap, ◌∙◌, true, ℕ, List, [], ◌∷◌}
use moto_ctrl.Crypto.{
  Nacl, hash_init, hash_update, hash_final, hash_sha512, verify, hash_blocks, keep_rest,
}
use moto_ctrl.Crypto.Streaming.{IsBlockwise, hash_update-append}
use moto_ctrl.Ota.Transfer.{
  FlashCall, flash_begin, flash_write, flash_finalize, flash_abort, reboot_device, OtaHal,
  committed, is_state, init,
}
use moto_ctrl.Ota.Image.{OtaOp, image, digest, run}
use moto_ctrl.Ota.Committed.{run-committed}

hash_update-empty : (nacl : Nacl) → hash_update nacl hash_init [] ≡ hash_init
unfolding hash_update hash_blocks keep_rest hash_init
hash_update-empty nacl = refl

digest-image :
    (nacl : Nacl) (calls : List FlashCall)
    → IsBlockwise nacl
    → digest nacl calls ≡ hash_update nacl hash_init (image calls)
unfolding digest image
digest-image nacl [] law = sym (hash_update-empty nacl)
digest-image nacl (flash_begin size ∷ calls) law = sym (hash_update-empty nacl)
digest-image nacl (flash_write offset bytes ∷ calls) law =
    ap (λ c. hash_update nacl c bytes) (digest-image nacl calls law)
    ∙ hash_update-append nacl (image calls) bytes law
digest-image nacl (flash_finalize ∷ calls) law = digest-image nacl calls law
digest-image nacl (flash_abort ∷ calls) law = digest-image nacl calls law
digest-image nacl (reboot_device ∷ calls) law = digest-image nacl calls law

-- Over a TweetNaCl that hashes by blocks and a HAL that begins and writes the flash, whatever is called and however the image was cut into
-- chunks, when an update is committed the hash of the image in the flash, taken in one piece, is the
-- declared one, which was signed with the release key.
pub run-signed :
    (nacl : Nacl) (hal : OtaHal) (pubkey : List ℕ) (ops : List OtaOp)
    → IsBlockwise nacl
    → hal.has_begin ≡ true
    → hal.has_write ≡ true
    → is_state (run nacl ops (init hal pubkey)).state committed ≡ true
    → let ota = run nacl ops (init hal pubkey) in
      (hash_sha512 nacl (image ota.calls) ≡ ota.declared_sha512)
      × ((signature : List ℕ) × (verify nacl pubkey ota.declared_sha512 signature ≡ true))
unfolding hash_sha512
run-signed nacl hal pubkey ops law has_begin has_write done =
    let ota = run nacl ops (init hal pubkey) in
    let (_, _, _, checked, signed) = run-committed nacl hal pubkey ops has_begin has_write done in
    (ap (hash_final nacl) (sym (digest-image nacl ota.calls law)) ∙ checked, signed)
