-- ===== src/Ota/Image.antt =====
-- The image that an update writes, the events of an update, and what holds while it is under way.
use moto_ctrl.Base.{
  ℕ, ◌≤◌, ◌≡◌, sym, ap, ◌∙◌, Bool, true, false, ◌&&◌, List, [], ◌∷◌, ◌++◌, subst, arith, ◌==◌,
  length, same_bytes,
}
use moto_ctrl.Crypto.{Nacl, HashCtx, hash_init, hash_update, hash_final, verify}
use moto_ctrl.Ota.Transfer.{
  OtaState, receiving, committed, FlashCall, flash_begin, flash_write, OtaHal, Ota, max_image_size,
  is_state, begin, chunk, commit, abort, reboot,
}

-- A call of mc_ota.h that changes the state.
pub data OtaOp : Type 0 where
  begin_update : ℕ → List ℕ → List ℕ → Bool → OtaOp
  send_chunk : ℕ → List ℕ → OtaOp
  commit_update abort_update : OtaOp
  reboot_now : Bool → OtaOp

-- The bytes written to the flash since it was last begun.
unfoldable pub image : List FlashCall → List ℕ
image [] = []
image (flash_begin size ∷ calls) = []
image (flash_write offset bytes ∷ calls) = image calls ++ bytes
image (_ ∷ calls) = image calls

-- Each write since the flash was last begun stands right behind those before it.
unfoldable pub in_order : List FlashCall → Bool
in_order [] = true
in_order (flash_begin size ∷ calls) = true
in_order (flash_write offset bytes ∷ calls) = offset == length (image calls) && in_order calls
in_order (_ ∷ calls) = in_order calls

-- The update is under way or done.
abbrev pub is_active : OtaState → Bool
is_active receiving = true
is_active committed = true
is_active _ = false

module _ (nacl : Nacl) where
  -- The hash context after the bytes written to the flash since it was last begun.
  unfoldable pub digest : List FlashCall → HashCtx
  digest [] = hash_init
  digest (flash_begin size ∷ calls) = hash_init
  digest (flash_write offset bytes ∷ calls) = hash_update nacl (digest calls) bytes
  digest (_ ∷ calls) = digest calls

  unfoldable pub step : OtaOp → Ota → Ota
  step (begin_update size sha512 signature safe) ota = (begin nacl ota size sha512 signature safe).1
  step (send_chunk offset bytes) ota = (chunk nacl ota offset bytes).1
  step commit_update ota = (commit nacl ota).1
  step abort_update ota = abort ota
  step (reboot_now safe) ota = (reboot ota safe).1

  unfoldable pub run : List OtaOp → Ota → Ota
  run [] ota = ota
  run (op ∷ ops) ota = run ops (step op ota)

  -- What holds of an update that is under way or done: what the flash holds is what was counted and
  -- hashed, and the digest it is to have was signed with the release key.
  pub record UnderWay (ota : Ota) : Type 0 where
    pub signature : List ℕ
    pub signed : verify nacl ota.release_pubkey ota.declared_sha512 signature ≡ true
    pub hashed : digest ota.calls ≡ ota.running_hash
    pub counted : length (image ota.calls) ≡ ota.bytes_received
    pub ordered : in_order ota.calls ≡ true
    pub within : ota.bytes_received ≤ ota.image_size
    pub fits : ota.image_size ≤ max_image_size
    pub complete : is_state ota.state committed ≡ true → ota.bytes_received ≡ ota.image_size
    pub checked :
        is_state ota.state committed ≡ true
        → same_bytes (hash_final nacl ota.running_hash) ota.declared_sha512 ≡ true

  pub record Kept (ota : Ota) : Type 0 where
    pub has_begin : ota.hal.has_begin ≡ true
    pub has_write : ota.hal.has_write ≡ true
    pub under_way : is_active ota.state ≡ true → UnderWay ota

  pub Kept-same : (ota ota' : Ota) → ota' ≡ ota → Kept ota → Kept ota'
  Kept-same ota ota' e h = subst Kept (sym e) h

  pub Kept-inactive :
      (ota ota' : Ota) → ota'.hal ≡ ota.hal → is_active ota'.state ≡ false → Kept ota → Kept ota'
  Kept-inactive ota ota' e off h = record {
    has_begin = ap (λ (x : OtaHal). x.has_begin) e ∙ h.has_begin;
    has_write = ap (λ (x : OtaHal). x.has_write) e ∙ h.has_write;
    under_way = λ on. absurd (ground arith);
  }
