-- ===== src/Session/Diag.antt =====
-- The diagnostics commands of `handle_command` (firmware/components/core/mc_session.c), for an
-- authenticated session.
use moto_ctrl.Base.{
  ℕ, zero, suc, ◌+◌, ◌-◌, ◌*◌, ◌%◌, ℤ, pos, negsuc, not, none, some, List, [], ◌∷◌, ltb, ◌==◌,
  if◌then◌else◌, length, replicate,
}
use moto_ctrl.Output.Types.{output_count}
use moto_ctrl.Diag.Types.{Fault, no_fault, open_load, overcurrent, DiagConfig, Floats, Calib, Diag}
use moto_ctrl.Diag.Settings.{config_validate, apply_config, apply_calib, learn}
use moto_ctrl.Status.Frame.{put_u16le, put_u32le, get_u16le, get_u32le}
use moto_ctrl.Session.Types.{
  Session, App, Reply, World, command_line, persist_config, persist_diag_calib, send_frame, hook,
  answer,
}
use moto_ctrl.Session.Commands.{command_result}
use moto_ctrl.Session.Result

-- `body[i]`, for an index below the length.
abbrev pub byte_at : List ℕ → ℕ → ℕ
byte_at [] i = 0
byte_at (b ∷ bytes) zero = b
byte_at (b ∷ bytes) (suc i) = byte_at bytes i

abbrev pub u16_at : List ℕ → ℕ → ℕ
u16_at bytes i = get_u16le (byte_at bytes i) (byte_at bytes (i + 1))

abbrev u32_at : List ℕ → ℕ → ℕ
u32_at bytes i =
    get_u32le (byte_at bytes i) (byte_at bytes (i + 1)) (byte_at bytes (i + 2))
      (byte_at bytes (i + 3))

-- `(int16_t)v` and `(uint16_t)i`
abbrev int16_of : ℕ → ℤ
int16_of v = if ltb v 32768 then pos v else negsuc (65535 - v)

abbrev word_of : ℤ → ℕ
word_of (pos n) = n % 65536
word_of (negsuc n) = 65535 - n % 65536

-- `for (ch = i; ch < i + n; ch++)` over the bytes that each channel adds before the rest.
unfoldable pub each_channel : ℕ → ℕ → (ℕ → List ℕ → List ℕ) → List ℕ → List ℕ
each_channel zero i put rest = rest
each_channel (suc n) i put rest = put i (each_channel n (suc i) put rest)

abbrev fault_byte : Fault → ℕ
fault_byte no_fault = 0
fault_byte open_load = 1
fault_byte overcurrent = 2

-- The thresholds after the result byte of MC_OP_DIAG_CONFIG, and without it those of
-- MC_OP_DIAG_SET_CONFIG.
unfoldable pub config_bytes : DiagConfig → List ℕ
unfolding each_channel
config_bytes cfg =
    each_channel output_count 0
      (λ ch rest.
        put_u16le (cfg.channels ch).open_load_ma (put_u16le (cfg.channels ch).overcurrent_ma rest))
      (put_u16le cfg.lv_cutoff_mv (
        put_u16le cfg.lv_cutoff_hysteresis_mv (
          put_u16le cfg.engine_run_mv (
            put_u16le cfg.engine_run_hysteresis_mv
              ((if cfg.engine_run_voltage_detection_enabled then 1 else 0) ∷ [])))))

-- What MC_OP_DIAG_SET_CONFIG reads, of at least 57 bytes.
unfoldable pub config_of : List ℕ → DiagConfig
config_of body = record {
  channels = λ ch. record {
    open_load_ma = u16_at body (ch * 4);
    overcurrent_ma = u16_at body (ch * 4 + 2);
  };
  lv_cutoff_mv = u16_at body 48;
  lv_cutoff_hysteresis_mv = u16_at body 50;
  engine_run_mv = u16_at body 52;
  engine_run_hysteresis_mv = u16_at body 54;
  engine_run_voltage_detection_enabled = not (byte_at body 56 == 0);
}

module _ {F : Type 0} (fl : Floats F) where
  -- The constants of MC_OP_DIAG_CALIB and of MC_OP_DIAG_SET_CALIB.
  unfoldable pub calib_bytes : Calib F → List ℕ
  calib_bytes c = put_u32le (fl.bits c.is_gain) (
      put_u16le (word_of c.is_offset_mv) (
        put_u32le (fl.bits c.kilis)
          (put_u32le (fl.bits c.vbat_gain) (put_u16le (word_of c.vbat_offset_mv) []))))

  unfoldable pub calib_of : List ℕ → Calib F
  calib_of body = record {
    is_gain = fl.of_bits (u32_at body 0);
    is_offset_mv = int16_of (u16_at body 4);
    kilis = fl.of_bits (u32_at body 6);
    vbat_gain = fl.of_bits (u32_at body 10);
    vbat_offset_mv = int16_of (u16_at body 14);
  }

module _ {S F : Type 0} where
  -- MC_OP_DIAG_GET
  unfoldable pub diag_get : Session → App S F → Reply S F
  unfolding each_channel
  diag_get s app = elim app.diag [
    | none ↦ answer s app (send_frame command_line 0x8a (Result.rejected ∷ replicate 36 0))
    | some diag ↦ answer s app (
        send_frame command_line 0x8a (
          Result.ok
          ∷ each_channel output_count 0 (λ ch. put_u16le (diag.current_ma ch))
              (each_channel output_count 0 (λ ch rest. fault_byte (diag.fault ch) ∷ rest) [])))
  ]

  -- MC_OP_DIAG_GET_CONFIG
  unfoldable pub diag_get_config : Session → App S F → Reply S F
  unfolding config_bytes
  diag_get_config s app = elim app.diag [
    | none ↦ answer s app (send_frame command_line 0x8b (Result.rejected ∷ replicate 57 0))
    | some diag ↦ answer s app (send_frame command_line 0x8b (Result.ok ∷ config_bytes diag.config))
  ]

  -- MC_OP_DIAG_SET_CONFIG
  unfoldable pub diag_set_config : Session → App S F → List ℕ → Reply S F
  unfolding config_of
  diag_set_config s app body = elim app.diag [
    | none ↦ answer s app (command_result 0x0c Result.rejected)
    | some diag ↦
        let cfg = config_of body in
        if ltb (length body) 57
        then answer s app (command_result 0x0c Result.bad_request)
        else if config_validate cfg
        then answer s app (command_result 0x0c Result.rejected)
        else answer s
            (hook app.hooks.has_persist_config persist_config (record app {
              diag = some (apply_config diag cfg);
              config = record app.config { diagnostics = cfg };
            }))
            (command_result 0x0c Result.ok)
  ]

  -- MC_OP_DIAG_GET_CALIB
  unfoldable pub diag_get_calib : World F → Session → App S F → Reply S F
  unfolding calib_bytes
  diag_get_calib w s app = elim app.diag [
    | none ↦ answer s app (send_frame command_line 0x8d (Result.rejected ∷ replicate 16 0))
    | some diag ↦
        answer s app (send_frame command_line 0x8d (Result.ok ∷ calib_bytes w.floats diag.calib))
  ]

  -- MC_OP_DIAG_SET_CALIB
  unfoldable pub diag_set_calib : World F → Session → App S F → List ℕ → Reply S F
  unfolding calib_of
  diag_set_calib w s app body = elim app.diag [
    | none ↦ answer s app (command_result 0x0e Result.rejected)
    | some diag ↦
        if ltb (length body) 16
        then answer s app (command_result 0x0e Result.bad_request)
        else answer s
            (hook app.hooks.has_persist_diag_calib persist_diag_calib
              (record app { diag = some (apply_calib diag (calib_of w.floats body)) }))
            (command_result 0x0e Result.ok)
  ]

  -- MC_OP_DIAG_LEARN, of its byte
  unfoldable pub learn_result : World F → Session → App S F → Diag F → ℕ → Reply S F
  learn_result w s app diag channel =
      let (done, diag') = learn w.floats w.readings diag app.output channel in
      if done
      then answer s
          (hook app.hooks.has_persist_config persist_config (record app {
            diag = some diag';
            config = record app.config { diagnostics = diag'.config };
          }))
          (command_result 0x0f Result.ok)
      else answer s (record app { diag = some diag' }) (command_result 0x0f Result.rejected)

  -- MC_OP_DIAG_LEARN
  unfoldable pub diag_learn : World F → Session → App S F → List ℕ → Reply S F
  unfolding learn_result
  diag_learn w s app body = elim app.diag [
    | none ↦ answer s app (command_result 0x0f Result.rejected)
    | some diag ↦ elim body [
      | [] ↦ answer s app (command_result 0x0f Result.bad_request)
      | channel ∷ rest ↦ learn_result w s app diag channel
    ]
  ]
