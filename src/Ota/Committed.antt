-- ===== src/Ota/Committed.antt =====
-- What stands in the flash when an update is committed.
use moto_ctrl.Base.{
  refl, sym, ℕ, ◌≤◌, ◌≡◌, ap, ◌∙◌, true, List, [], ◌∷◌, arith, length, same_bytes-eq,
}
use moto_ctrl.Crypto.{Nacl, hash_final, verify}
use moto_ctrl.Ota.Transfer.{
  committed, OtaHal, Ota, max_image_size, is_state, init, call, begin, chunk, commit, abort, reboot,
}
use moto_ctrl.Ota.Image.{
  OtaOp, begin_update, send_chunk, commit_update, abort_update, reboot_now, image, in_order, digest,
  step, run, Kept,
}
use moto_ctrl.Ota.Keeping.{Kept-begin, Kept-chunk, Kept-commit, Kept-abort, Kept-reboot}

module _ (nacl : Nacl) where
  Kept-step : (op : OtaOp) (ota : Ota) → Kept nacl ota → Kept nacl (step nacl op ota)
  unfolding step
  Kept-step (begin_update size sha512 signature safe) ota h =
      Kept-begin nacl ota size sha512 signature safe h
  Kept-step (send_chunk offset bytes) ota h = Kept-chunk nacl ota offset bytes h
  Kept-step commit_update ota h = Kept-commit nacl ota h
  Kept-step abort_update ota h = Kept-abort nacl ota h
  Kept-step (reboot_now safe) ota h = Kept-reboot nacl ota safe h

  Kept-run : (ops : List OtaOp) (ota : Ota) → Kept nacl ota → Kept nacl (run nacl ops ota)
  unfolding run
  Kept-run [] ota h = h
  Kept-run (op ∷ ops) ota h = Kept-run ops (step nacl op ota) (Kept-step op ota h)

module _ (nacl : Nacl) where
  -- No call changes the key that a signature is checked against.
  release_pubkey-step :
      (op : OtaOp) (ota : Ota) → (step nacl op ota).release_pubkey ≡ ota.release_pubkey
  unfolding step begin chunk commit abort reboot call
  release_pubkey-step (begin_update size sha512 signature safe) ota = ground arith
  release_pubkey-step (send_chunk offset bytes) ota = ground arith
  release_pubkey-step commit_update ota = ground arith
  release_pubkey-step abort_update ota = ground arith
  release_pubkey-step (reboot_now safe) ota = ground arith

  release_pubkey-run :
      (ops : List OtaOp) (ota : Ota) → (run nacl ops ota).release_pubkey ≡ ota.release_pubkey
  unfolding run
  release_pubkey-run [] ota = refl
  release_pubkey-run (op ∷ ops) ota =
      release_pubkey-run ops (step nacl op ota) ∙ release_pubkey-step op ota

-- Over a HAL that begins and writes the flash, whatever is called, when an update is committed the flash holds, written in order and without a
-- gap, as many bytes as were declared, no more than a partition has; their hash is the declared one,
-- and that was signed with the release key.
pub run-committed :
    (nacl : Nacl) (hal : OtaHal) (pubkey : List ℕ) (ops : List OtaOp)
    → hal.has_begin ≡ true
    → hal.has_write ≡ true
    → is_state (run nacl ops (init hal pubkey)).state committed ≡ true
    → let ota = run nacl ops (init hal pubkey) in
      (length (image ota.calls) ≡ ota.image_size)
      × (in_order ota.calls ≡ true)
      × (ota.image_size ≤ max_image_size)
      × (hash_final nacl (digest nacl ota.calls) ≡ ota.declared_sha512)
      × ((signature : List ℕ) × (verify nacl pubkey ota.declared_sha512 signature ≡ true))
unfolding init
run-committed nacl hal pubkey ops has_begin has_write done =
    let start : Kept nacl (init hal pubkey) = record {
      has_begin = has_begin;
      has_write = has_write;
      under_way = λ on. absurd (ground arith);
    } in
    let u = (Kept-run nacl ops (init hal pubkey) start).under_way (ground arith) in
    (
      u.counted ∙ u.complete done,
      u.ordered,
      u.fits,
      ap (hash_final nacl) u.hashed ∙ same_bytes-eq _ _ (u.checked done),
      (
        u.signature,
        ap (λ k. verify nacl k (run nacl ops (init hal pubkey)).declared_sha512 u.signature)
              (sym (release_pubkey-run nacl ops (init hal pubkey)))
            ∙ u.signed,
      ),
    )
