-- ===== src/Session/Update.antt =====
-- `handle_ota` of firmware/components/core/mc_session.c.
use moto_ctrl.Base.{
  ℕ, Bool, true, false, not, ◌&&◌, none, some, List, [], ◌∷◌, ◌==◌, if◌then◌else◌, length, take,
  drop, replicate,
}
use moto_ctrl.Output.Types.{Engine}
use moto_ctrl.Ota.Transfer.{
  OtaState, idle, receiving, committed, failed, OtaResult, ok, bad_state, bad_size, bad_signature,
  out_of_order_chunk, overrun, hash_mismatch, flash_failed, unsafe_state, Ota, begin, chunk, commit,
  abort, reboot,
}
use moto_ctrl.Status.Frame.{put_u32le, get_u32le}
use moto_ctrl.Session.Types.{
  is_authed, Session, App, Reply, World, Frame, ota_line, log_event, send_frame, send_result1, hook,
  answer,
}
use moto_ctrl.Session.Result

-- `ota_safe_to_flash`
unfoldable pub safe_to_flash : Engine → Bool
safe_to_flash output = not output.engine_running && not output.lv_cutoff

-- `ota_result_to_wire`
unfoldable pub result_to_wire : OtaResult → ℕ
result_to_wire ok = Result.ok
result_to_wire bad_state = Result.bad_request
result_to_wire bad_size = Result.bad_request
result_to_wire out_of_order_chunk = Result.bad_request
result_to_wire overrun = Result.bad_request
result_to_wire flash_failed = Result.internal
result_to_wire bad_signature = Result.rejected
result_to_wire hash_mismatch = Result.rejected
result_to_wire unsafe_state = Result.rejected

-- `(uint8_t)r` and `(uint8_t)state`
abbrev result_byte : OtaResult → ℕ
result_byte ok = 0
result_byte bad_state = 1
result_byte bad_size = 2
result_byte bad_signature = 3
result_byte out_of_order_chunk = 4
result_byte overrun = 5
result_byte hash_mismatch = 6
result_byte flash_failed = 7
result_byte unsafe_state = 8

abbrev state_byte : OtaState → ℕ
state_byte idle = 0
state_byte receiving = 1
state_byte committed = 2
state_byte failed = 3

abbrev is_done : OtaResult → Bool
is_done ok = true
is_done _ = false

abbrev is_bad_signature : OtaResult → Bool
is_bad_signature bad_signature = true
is_bad_signature _ = false

-- `send_result1(send, io, MC_CH_OTA, MC_OP_OTA_RESULT, result)`
abbrev ota_answer : ℕ → List Frame
ota_answer result = send_result1 ota_line 0x8f result

module _ {S F : Type 0} where
  abbrev with_ota : Ota → App S F → App S F
  with_ota ota app = record app { ota = some ota }

  -- MC_OP_OTA_BEGIN
  unfoldable pub ota_begin : World F → Session → App S F → Ota → List ℕ → Reply S F
  unfolding safe_to_flash result_to_wire
  ota_begin w s app ota (b0 ∷ b1 ∷ b2 ∷ b3 ∷ body) =
      let (r, ota') =
        begin w.nacl ota (get_u32le b0 b1 b2 b3) (take 64 body) (drop 64 body)
          (safe_to_flash app.output) in
      if not (length body == 128)
      then answer s app (ota_answer Result.bad_request)
      else answer s
          (hook (is_bad_signature r && app.hooks.has_log_event) (log_event 10 (result_byte r) 0)
            (hook (is_done r && app.hooks.has_log_event) (log_event 8 0 0) (with_ota ota' app)))
          (ota_answer (result_to_wire r))
  ota_begin w s app ota _ = answer s app (ota_answer Result.bad_request)

  -- MC_OP_OTA_CHUNK
  unfoldable pub ota_chunk : World F → Session → App S F → Ota → List ℕ → Reply S F
  unfolding result_to_wire
  ota_chunk w s app ota (b0 ∷ b1 ∷ b2 ∷ b3 ∷ bytes) =
      let (r, ota') = chunk w.nacl ota (get_u32le b0 b1 b2 b3) bytes in
      answer s (with_ota ota' app) (ota_answer (result_to_wire r))
  ota_chunk w s app ota _ = answer s app (ota_answer Result.bad_request)

  -- MC_OP_OTA_COMMIT
  unfoldable pub ota_commit : World F → Session → App S F → Ota → Reply S F
  unfolding result_to_wire
  ota_commit w s app ota =
      let (r, ota') = commit w.nacl ota in
      answer s
        (hook app.hooks.has_log_event
          (if is_done r then log_event 9 0 0 else log_event 10 (result_byte r) 0)
          (with_ota ota' app))
        (ota_answer (result_to_wire r))

  -- MC_OP_OTA_REBOOT
  unfoldable pub ota_reboot : Session → App S F → Ota → Reply S F
  unfolding safe_to_flash result_to_wire
  ota_reboot s app ota =
      let (r, ota') = reboot ota (safe_to_flash app.output) in
      answer s (with_ota ota' app) (ota_answer (result_to_wire r))

  -- The `switch` of `handle_ota`.
  unfoldable pub ota_command : World F → Session → App S F → Ota → ℕ → List ℕ → Reply S F
  ota_command w s app ota op body =
      if op == 0x01
      then ota_begin w s app ota body
      else if op == 0x02
      then ota_chunk w s app ota body
      else if op == 0x03
      then ota_commit w s app ota
      else if op == 0x04
      then answer s (with_ota (abort ota) app) (ota_answer Result.ok)
      else if op == 0x05
      then ota_reboot s app ota
      else if op == 0x06
      then answer s app (
          send_frame ota_line 0x86 (
            Result.ok
            ∷ state_byte ota.state
            ∷ put_u32le ota.bytes_received (put_u32le ota.image_size [])))
      else answer s app (ota_answer Result.bad_request)

  -- `handle_ota`
  unfoldable pub handle_ota : World F → Session → App S F → List ℕ → Reply S F
  handle_ota w s app [] = answer s app []
  handle_ota w s app (op ∷ body) =
      if not (is_authed s.state)
      then answer s app (ota_answer Result.unauthenticated)
      else elim app.ota [
        | some ota ↦ ota_command w s app ota op body
        | none ↦
            if op == 0x06
            then answer s app (send_frame ota_line 0x86 (Result.rejected ∷ replicate 9 0))
            else answer s app (ota_answer Result.rejected)
      ]
