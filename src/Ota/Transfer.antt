-- ===== src/Ota/Transfer.antt =====
-- firmware/components/core/mc_ota.c. What a flash function of the injected `mc_ota_hal_t` returns is a
-- parameter, which may hang on all the calls before; the log of the calls is part of the state.
use moto_ctrl.Base.{
  ℕ, ◌+◌, Bool, true, false, not, ◌||◌, List, [], ◌∷◌, ltb, ◌==◌, if◌then◌else◌, add32, length,
  replicate, same_bytes,
}
use moto_ctrl.Crypto.{Nacl, HashCtx, hash_init, hash_update, hash_final, verify}

-- `mc_ota_state_t`
pub data OtaState : Type 0 where
  idle receiving committed failed : OtaState

-- `mc_ota_result_t`
pub data OtaResult : Type 0 where
  ok bad_state bad_size bad_signature out_of_order_chunk overrun : OtaResult
  hash_mismatch flash_failed unsafe_state : OtaResult

-- A call through `mc_ota_hal_t`.
pub data FlashCall : Type 0 where
  flash_begin : ℕ → FlashCall
  flash_write : ℕ → List ℕ → FlashCall
  flash_finalize flash_abort reboot_device : FlashCall

-- `mc_ota_hal_t`: which of its functions are not NULL, and what the next call returns after the calls
-- so far, the newest first.
pub record OtaHal : Type 0 where
  pub has_begin : Bool
  pub has_write : Bool
  pub has_finalize : Bool
  pub has_abort : Bool
  pub has_reboot : Bool
  pub answer : List FlashCall → FlashCall → Bool

-- `mc_ota_t`
pub record Ota : Type 0 where
  pub hal : OtaHal
  pub calls : List FlashCall
  pub release_pubkey : List ℕ
  pub state : OtaState
  pub image_size : ℕ
  pub bytes_received : ℕ
  pub declared_sha512 : List ℕ
  pub running_hash : HashCtx

-- MC_OTA_MAX_IMAGE_SIZE
abbrev pub max_image_size : ℕ
max_image_size = 0x180000

abbrev pub is_state : OtaState → OtaState → Bool
is_state idle idle = true
is_state receiving receiving = true
is_state committed committed = true
is_state failed failed = true
is_state _ _ = false

-- The hash context of zeroes that `memset` leaves.
abbrev no_hash : HashCtx
no_hash = record { h = replicate 64 0; block = []; total_len = 0 }

-- `mc_ota_init`
unfoldable pub init : OtaHal → List ℕ → Ota
init hal pubkey = record {
  hal = hal;
  calls = [];
  release_pubkey = pubkey;
  state = idle;
  image_size = 0;
  bytes_received = 0;
  declared_sha512 = replicate 64 0;
  running_hash = no_hash;
}

-- A call of a HAL function that may be NULL.
unfoldable pub call : Bool → FlashCall → Ota → Ota
call has c ota = if has then record ota { calls = c ∷ ota.calls } else ota

-- Whether the call succeeds; a function that is NULL does.
unfoldable pub succeeds : Bool → FlashCall → Ota → Bool
succeeds has c ota = not has || ota.hal.answer ota.calls c

module _ (nacl : Nacl) where
  -- `mc_ota_begin`
  unfoldable pub begin : Ota → ℕ → List ℕ → List ℕ → Bool → OtaResult × Ota
  unfolding call succeeds
  begin ota image_size sha512 signature safe =
      let c = flash_begin image_size in
      let called = call ota.hal.has_begin c ota in
      if not (is_state ota.state idle)
      then (bad_state, ota)
      else if image_size == 0 || ltb max_image_size image_size
      then (bad_size, ota)
      else if not safe
      then (unsafe_state, ota)
      else if not (verify nacl ota.release_pubkey sha512 signature)
      then (bad_signature, ota)
      else if not (succeeds ota.hal.has_begin c ota)
      then (flash_failed, called)
      else (
        ok,
        record called {
          declared_sha512 = sha512;
          image_size = image_size;
          bytes_received = 0;
          running_hash = hash_init;
          state = receiving;
        },
      )

  -- `mc_ota_chunk`
  unfoldable pub chunk : Ota → ℕ → List ℕ → OtaResult × Ota
  unfolding call succeeds
  chunk ota offset bytes =
      let c = flash_write offset bytes in
      let called = call ota.hal.has_write c ota in
      if not (is_state ota.state receiving)
      then (bad_state, ota)
      else if not (offset == ota.bytes_received)
      then (out_of_order_chunk, record ota { state = failed })
      else if ltb ota.image_size (ota.bytes_received + length bytes)
      then (overrun, record ota { state = failed })
      else if not (succeeds ota.hal.has_write c ota)
      then (flash_failed, record called { state = failed })
      else (
        ok,
        record called {
          running_hash = hash_update nacl ota.running_hash bytes;
          bytes_received = add32 ota.bytes_received (length bytes);
        },
      )

  -- `mc_ota_commit`; the hash context that it uses up is not read again before `begin` sets it.
  unfoldable pub commit : Ota → OtaResult × Ota
  unfolding call succeeds
  commit ota =
      let c = flash_finalize in
      let called = call ota.hal.has_finalize c ota in
      if not (is_state ota.state receiving) || not (ota.bytes_received == ota.image_size)
      then (bad_state, ota)
      else if not (same_bytes (hash_final nacl ota.running_hash) ota.declared_sha512)
      then (hash_mismatch, record ota { state = failed })
      else if not (succeeds ota.hal.has_finalize c ota)
      then (flash_failed, record called { state = failed })
      else (ok, record called { state = committed })

-- `mc_ota_abort`
unfoldable pub abort : Ota → Ota
unfolding call
abort ota = record (call ota.hal.has_abort flash_abort ota) {
  state = idle;
  image_size = 0;
  bytes_received = 0;
}

-- `mc_ota_reboot`
unfoldable pub reboot : Ota → Bool → OtaResult × Ota
unfolding call
reboot ota safe =
    if not (is_state ota.state committed)
    then (bad_state, ota)
    else if not safe
    then (unsafe_state, ota)
    else (ok, call ota.hal.has_reboot reboot_device ota)
