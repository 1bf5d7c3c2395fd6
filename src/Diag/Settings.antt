-- ===== src/Diag/Settings.antt =====
-- The defaults, the settings and the learning of firmware/components/core/mc_diag.c.
use moto_ctrl.Base.{
  ℕ, ◌/◌, pos, Bool, true, false, not, ◌&&◌, none, some, leb, ◌==◌, if◌then◌else◌, update,
  for_range,
}
use moto_ctrl.Output.Types.{Engine, output_count}
use moto_ctrl.Output.Drive.{get_actual_state}
use moto_ctrl.Diag.Types.{no_fault, DiagConfig, Floats, Calib, Readings, Diag, calc_current_ma}

-- `mc_diag_config_default`
unfoldable pub config_default : DiagConfig
config_default = record {
  channels = λ _. record { open_load_ma = 50; overcurrent_ma = 15000 };
  lv_cutoff_mv = 11800;
  lv_cutoff_hysteresis_mv = 300;
  engine_run_mv = 13800;
  engine_run_hysteresis_mv = 300;
  engine_run_voltage_detection_enabled = false;
}

-- `mc_diag_config_validate`: whether MC_DIAG_CFG_BAD_CHANNEL_THRESHOLDS, its only flag, is set.
unfoldable pub config_validate : DiagConfig → Bool
config_validate cfg =
    for_range output_count 0
      (λ i flag.
        if leb (cfg.channels i).overcurrent_ma (cfg.channels i).open_load_ma then true else flag)
      false

-- `diag->hal.read_channel_mv(ch)`, where there is one.
abbrev pub read_channel : Readings → ℕ → ℕ
read_channel r ch = elim r.channel_mv [ none ↦ 0 | some read ↦ read ch ]

module _ {F : Type 0} where
  -- `mc_diag_calib_default`
  unfoldable pub calib_default : Floats F → Calib F
  calib_default fl = record {
    is_gain = fl.literal 1 1;
    is_offset_mv = pos 0;
    kilis = fl.literal 1 1;
    vbat_gain = fl.literal 110011 10000;
    vbat_offset_mv = pos 0;
  }

  -- `mc_diag_init`
  unfoldable pub init : DiagConfig → Calib F → Diag F
  init config calib = record {
    config = config;
    calib = calib;
    current_ma = λ _. 0;
    fault = λ _. no_fault;
    fault_mask = 0;
    battery_mv = 0;
    engine_running = false;
    lv_cutoff_active = false;
    next_sample_channel = 0;
  }

  abbrev with_open_load : Diag F → ℕ → ℕ → Diag F
  with_open_load diag ch ma = record diag {
    config = record diag.config {
      channels =
          update diag.config.channels ch (record (diag.config.channels ch) { open_load_ma = ma });
    };
  }

  -- One round of the loop of `mc_diag_learn`, past its `continue`s.
  unfoldable pub learn_channel :
      Floats F → Readings → Engine → ℕ → ℕ → Bool × Diag F → Bool × Diag F
  learn_channel fl r output channel ch (learned_any, diag) =
      if not (channel == 0xff) && not (ch == channel)
      then (learned_any, diag)
      else if not (get_actual_state output ch output.last_tick_ms)
      then (learned_any, diag)
      else (true, with_open_load diag ch (calc_current_ma fl diag.calib (read_channel r ch) / 2))

  -- `mc_diag_learn`
  unfoldable pub learn : Floats F → Readings → Diag F → Engine → ℕ → Bool × Diag F
  learn fl r diag output channel =
      if not (channel == 0xff) && leb output_count channel
      then (false, diag)
      else for_range output_count 0 (learn_channel fl r output channel) (false, diag)

  -- `mc_diag_apply_config` and `mc_diag_apply_calib`
  unfoldable pub apply_config : Diag F → DiagConfig → Diag F
  apply_config diag config = record diag { config = config }

  unfoldable pub apply_calib : Diag F → Calib F → Diag F
  apply_calib diag calib = record diag { calib = calib }
