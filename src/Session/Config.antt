-- ===== src/Session/Config.antt =====
-- `handle_config` of firmware/components/core/mc_session.c.
use moto_ctrl.Base.{
  ℕ, zero, suc, ◌+◌, ◌-◌, ◌%◌, Bool, true, false, not, ◌&&◌, ◌||◌, Option, none, some, List, [],
  ◌∷◌, ◌++◌, ltb, leb, ◌==◌, if◌then◌else◌, length, take, drop, same_bytes,
}
use moto_ctrl.Output.Types.{Config, Engine}
use moto_ctrl.Output.Drive.{get_state, with_commanded}
use moto_ctrl.Output.Settings.{Flags, config_validate}
use moto_ctrl.Input.Queue.{set_config}
use moto_ctrl.Status.Frame.{put_u16le, get_u16le}
use moto_ctrl.Config.{DeviceConfig, Loaded, loaded, refused, json_max}
use moto_ctrl.Session.Types.{
  is_authed, Session, App, Reply, World, Frame, config_line, persist_config, device_name_changed,
  send_frame, send_result1, hook, answer,
}
use moto_ctrl.Session.Diag.{byte_at}
use moto_ctrl.Session.Result

-- MC_PROTOCOL_CONFIG_CHUNK
abbrev pub config_chunk : ℕ
config_chunk = 128

-- `send_result1(send, io, MC_CH_CONFIG, MC_OP_CONFIG_WRITE_RESULT, result)`
abbrev pub write_result : ℕ → List Frame
write_result result = send_result1 config_line 0x82 result

-- The loop of `config_send_read`, of the bytes from `off` on, on fuel: `none` is a loop that ran out.
unfoldable pub send_json : ℕ → ℕ → ℕ → List ℕ → Option (List (ℕ × List ℕ))
send_json zero total off rest = none
send_json (suc fuel) total off rest =
    let n = length (take config_chunk rest) in
    let more = send_json fuel total (off + n) (drop config_chunk rest) in
    if ltb (off + n) total
    then elim more [ none ↦ none | some chunks ↦ some ((off, take config_chunk rest) ∷ chunks) ]
    else some ((off, take config_chunk rest) ∷ [])

unfoldable pub json_frames : ℕ → List (ℕ × List ℕ) → List Frame
json_frames total [] = []
json_frames total ((off, bytes) ∷ chunks) =
    send_frame config_line 0x81 (put_u16le off (put_u16le total bytes)) ++ json_frames total chunks

-- `config_send_read`
unfoldable pub send_read : Option (List ℕ) → List Frame
unfolding send_json json_frames
send_read none = send_frame config_line 0x81 (0 ∷ 0 ∷ 0 ∷ 0 ∷ [])
send_read (some json) = elim (send_json (suc (length json)) (length json) 0 json) [
  | none ↦ []
  | some chunks ↦ json_frames (length json) chunks
]

-- The first `n` bytes of a buffer, from `i` on.
unfoldable pub bytes_from : ℕ → ℕ → (ℕ → ℕ) → List ℕ
bytes_from zero i buf = []
bytes_from (suc n) i buf = buf i ∷ bytes_from n (suc i) buf

-- `memcpy(buf + offset, bytes, len)`
unfoldable pub write_bytes : (ℕ → ℕ) → ℕ → List ℕ → ℕ → ℕ
write_bytes buf offset bytes j =
    if leb offset j && ltb j (offset + length bytes) then byte_at bytes (j - offset) else buf j

abbrev pub any_flag : Flags → Bool
any_flag f =
    f.multiple_ignition || f.multiple_starter || f.bad_pwm_duty || f.bad_turn_period
    || f.bad_alternate || f.alternate_both_ignition

-- The incoming outputs with each channel's live state.
unfoldable pub with_live : Engine → Config → Config
with_live output outputs = record outputs {
  channels = λ ch. with_commanded (outputs.channels ch) (get_state output ch);
}

module _ {S F : Type 0} where
  -- `config_commit` once the incoming configuration is accepted.
  unfoldable pub apply_incoming : App S F → DeviceConfig → App S F
  unfolding with_live
  apply_incoming app parsed =
      let incoming = record parsed { outputs = with_live app.output parsed.outputs } in
      let renamed = not (same_bytes app.config.device_name incoming.device_name) in
      hook (renamed && app.hooks.has_on_device_name_changed) device_name_changed (
        hook app.hooks.has_persist_config persist_config (record app {
          config = incoming;
          output = record app.output { config = incoming.outputs };
          diag = elim app.diag [
            | none ↦ none
            | some diag ↦ some (record diag { config = incoming.diagnostics })
          ];
          input = elim app.input [
            | none ↦ none
            | some input ↦ some (set_config input incoming.inputs)
          ];
        }))

  -- `config_commit`, of what the codec made of the staged bytes
  unfoldable pub commit : Session → App S F → Loaded → Reply S F
  unfolding apply_incoming
  commit s app (refused result) = answer s app (write_result Result.bad_request)
  commit s app (loaded incoming) =
      if any_flag (config_validate incoming.outputs)
      then answer s app (write_result Result.rejected)
      else answer s (apply_incoming app incoming) (write_result Result.ok)

  -- A refused write, which drops what was staged.
  abbrev pub drop_write : Session → App S F → Reply S F
  drop_write s app =
      answer (record s { cfg_write_active = false }) app (write_result Result.bad_request)

  -- MC_OP_CONFIG_WRITE_BEGIN
  unfoldable pub write_begin : Session → App S F → List ℕ → Reply S F
  write_begin s app (t0 ∷ t1 ∷ body) =
      let total = get_u16le t0 t1 in
      if total == 0 || ltb json_max total
      then answer s app (write_result Result.bad_request)
      else answer (record s { cfg_write_total = total; cfg_write_got = 0; cfg_write_active = true })
          app []
  write_begin s app _ = answer s app (write_result Result.bad_request)

  -- MC_OP_CONFIG_WRITE_CHUNK
  unfoldable pub write_chunk : Session → App S F → List ℕ → Reply S F
  unfolding write_bytes
  write_chunk s app (o0 ∷ o1 ∷ bytes) =
      let offset = get_u16le o0 o1 in
      let end = (offset + length bytes) % 65536 in
      if not s.cfg_write_active || ltb s.cfg_write_total (offset + length bytes)
      then drop_write s app
      else answer
          (record s {
            cfg_write_buf = write_bytes s.cfg_write_buf offset bytes;
            cfg_write_got = if ltb s.cfg_write_got end then end else s.cfg_write_got;
          })
          app []
  write_chunk s app _ = drop_write s app

  -- MC_OP_CONFIG_WRITE_COMMIT
  unfoldable pub write_commit : World F → Session → App S F → Reply S F
  unfolding bytes_from commit
  write_commit w s app =
      if not s.cfg_write_active || not (s.cfg_write_got == s.cfg_write_total)
      then drop_write s app
      else commit (record s { cfg_write_active = false }) app
          (w.json.parse (bytes_from s.cfg_write_total 0 s.cfg_write_buf))

  -- `handle_config`
  unfoldable pub handle_config : World F → Session → App S F → List ℕ → Reply S F
  handle_config w s app [] = answer s app []
  handle_config w s app (op ∷ body) =
      if not (is_authed s.state)
      then answer s app (write_result Result.unauthenticated)
      else if op == 0x01
      then answer s app (send_read (w.json.print app.config))
      else if op == 0x02
      then write_begin s app body
      else if op == 0x03
      then write_chunk s app body
      else if op == 0x04
      then write_commit w s app
      else answer s app []
