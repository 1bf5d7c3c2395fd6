-- ===== src/Session/Lock.antt =====
-- The lock commands of `handle_command` (firmware/components/core/mc_session.c), for an authenticated
-- session.
use moto_ctrl.Base.{
  ℕ, ◌+◌, ℤ, pos, negsuc, minus_one, Bool, false, not, ◌&&◌, none, some, List, [], ◌∷◌, ltb, ◌==◌,
  if◌then◌else◌, length,
}
use moto_ctrl.Lock.Types.{LockConfig, Lock, ok, rejected, unauthorized}
use moto_ctrl.Lock.Types as LockTypes
use moto_ctrl.Lock.Clock.{request_lock, request_unlock}
use moto_ctrl.Lock.Cheatcode.{test_cheatcode, set_cheatcode, clear_cheatcode}
use moto_ctrl.Lock.Settings.{apply_config, any_lock_flag}
use moto_ctrl.Status.Frame.{put_u16le, get_u16le, int8_of, byte_of}
use moto_ctrl.Session.Types.{
  Session, App, Reply, World, command_line, persist_lock, log_event, send_frame, hook, answer,
}
use moto_ctrl.Session.Commands.{command_result}
use moto_ctrl.Session.Result

-- What MC_OP_LOCK and MC_OP_UNLOCK answer.
unfoldable pub lock_result : LockTypes.LockResult → ℕ
lock_result ok = Result.ok
lock_result _ = Result.rejected

-- `v > 0xFFFFu ? 0xFFFFu : (uint16_t)v`
abbrev clamp16 : ℕ → ℕ
clamp16 v = if ltb 0xffff v then 0xffff else v

-- `ign < 0 ? 0xFF : (uint8_t)ign`
abbrev input_byte : ℤ → ℕ
input_byte (pos n) = byte_of (pos n)
input_byte (negsuc n) = 0xff

-- `body_len < 1 || body_len != 1 + body[0]`
abbrev pub is_code : List ℕ → Bool
is_code [] = false
is_code (clen ∷ buttons) = 1 + length buttons == 1 + clen

abbrev code_of : List ℕ → List ℕ
code_of [] = []
code_of (clen ∷ buttons) = buttons

-- The answer to MC_OP_LOCK_GET_CONFIG.
unfoldable pub config_bytes : LockConfig → List ℕ
config_bytes cfg =
    (if cfg.immobilizer_enabled then 1 else 0)
    ∷ cfg.methods_mask
    ∷ input_byte cfg.ignition_switch_input
    ∷ put_u16le (clamp16 cfg.auto_lock_grace_ms) (
        put_u16le (clamp16 cfg.cheatcode_window_ms)
          ((if cfg.cheatcode_set then 1 else 0) ∷ cfg.cheatcode_len ∷ []))

module _ {S F : Type 0} where
  -- What a lock command that changed the lock tells the platform.
  abbrev report : ℕ → ℕ → Lock → App S F → App S F
  report event arg lock app =
      hook (lock.dirty && app.hooks.has_log_event) (log_event event arg 0)
        (hook (lock.dirty && app.hooks.has_persist_lock) persist_lock app)

  -- MC_OP_LOCK
  unfoldable pub lock_bike : Session → App S F → Reply S F
  unfolding lock_result
  lock_bike s app = elim app.lock [
    | none ↦ answer s app (command_result 0x02 Result.rejected)
    | some lock ↦
        let (r, lock', output') = request_lock lock app.output in
        answer s (report 1 0 lock' (record app { lock = some lock'; output = output' }))
          (command_result 0x02 (lock_result r))
  ]

  -- MC_OP_UNLOCK
  unfoldable pub unlock_bike : Session → App S F → Reply S F
  unfolding lock_result
  unlock_bike s app = elim app.lock [
    | none ↦ answer s app (command_result 0x03 Result.rejected)
    | some lock ↦
        let (r, lock', output') = request_unlock lock app.output in
        answer s (report 2 1 lock' (record app { lock = some lock'; output = output' }))
          (command_result 0x03 (lock_result r))
  ]

  -- MC_OP_LOCK_GET_CONFIG
  unfoldable pub lock_get_config : Session → App S F → Reply S F
  unfolding config_bytes
  lock_get_config s app = elim app.lock [
    | none ↦ answer s app (command_result 0x04 Result.rejected)
    | some lock ↦ answer s app (send_frame command_line 0x84 (config_bytes lock.config))
  ]

  -- MC_OP_LOCK_SET_CONFIG, of its seven bytes
  unfoldable pub lock_apply : Session → App S F → Lock → List ℕ → Reply S F
  lock_apply s app lock (enabled ∷ mask ∷ ign ∷ g0 ∷ g1 ∷ w0 ∷ w1 ∷ body) =
      let (flags, lock', output') =
        apply_config lock app.output app.output.config (not (enabled == 0)) mask
          (if ign == 0xff then minus_one else int8_of ign) (get_u16le g0 g1) (get_u16le w0 w1) in
      let applied = record app { lock = some lock'; output = output' } in
      if any_lock_flag flags
      then answer s applied (command_result 0x05 Result.rejected)
      else answer s (hook app.hooks.has_persist_lock persist_lock applied)
          (command_result 0x05 Result.ok)
  lock_apply s app lock _ = answer s app (command_result 0x05 Result.bad_request)

  -- MC_OP_LOCK_SET_CONFIG
  unfoldable pub lock_set_config : Session → App S F → List ℕ → Reply S F
  unfolding lock_apply
  lock_set_config s app body = elim app.lock [
    | none ↦ answer s app (command_result 0x05 Result.rejected)
    | some lock ↦ lock_apply s app lock body
  ]

  -- MC_OP_CHEATCODE_SET
  unfoldable pub cheatcode_set : World F → Session → App S F → List ℕ → Reply S F
  cheatcode_set w s app body = elim app.lock [
    | none ↦ answer s app (command_result 0x06 Result.bad_request)
    | some lock ↦
        if not (is_code body)
        then answer s app (command_result 0x06 Result.bad_request)
        else (let (done, lock') = set_cheatcode w.nacl lock (code_of body) (w.random 16) in
            answer s
              (hook (done && app.hooks.has_persist_lock) persist_lock
                (record app { lock = some lock' }))
              (command_result 0x06 (if done then Result.ok else Result.bad_request)))
  ]

  -- MC_OP_CHEATCODE_CLEAR
  unfoldable pub cheatcode_clear : Session → App S F → Reply S F
  cheatcode_clear s app = elim app.lock [
    | none ↦ answer s app (command_result 0x07 Result.rejected)
    | some lock ↦
        let (done, lock') = clear_cheatcode lock in
        answer s
          (hook (done && app.hooks.has_persist_lock) persist_lock
            (record app { lock = some lock' }))
          (command_result 0x07 (if done then Result.ok else Result.rejected))
  ]

  -- MC_OP_CHEATCODE_TEST
  unfoldable pub cheatcode_test : World F → Session → App S F → List ℕ → Reply S F
  cheatcode_test w s app body = elim app.lock [
    | none ↦ answer s app (send_frame command_line 0x88 (Result.bad_request ∷ 0 ∷ []))
    | some lock ↦
        if not (is_code body)
        then answer s app (send_frame command_line 0x88 (Result.bad_request ∷ 0 ∷ []))
        else answer s app (
            send_frame command_line 0x88 (
              Result.ok ∷ (if test_cheatcode w.nacl lock.config (code_of body) then 1 else 0) ∷ []))
  ]
