-- ===== src/Diag/Types.antt =====
-- The types of firmware/components/core/include/mc_diag.h, and its calibration arithmetic.
use moto_ctrl.Base.{ℕ, ℤ, Bool, Option, if◌then◌else◌}

-- `mc_diag_fault_t`
pub data Fault : Type 0 where
  no_fault open_load overcurrent : Fault

-- `mc_diag_channel_config_t`
pub record Thresholds : Type 0 where
  pub open_load_ma : ℕ
  pub overcurrent_ma : ℕ

-- `mc_diag_config_t`
pub record DiagConfig : Type 0 where
  pub channels : ℕ → Thresholds
  pub lv_cutoff_mv : ℕ
  pub lv_cutoff_hysteresis_mv : ℕ
  pub engine_run_mv : ℕ
  pub engine_run_hysteresis_mv : ℕ
  pub engine_run_voltage_detection_enabled : Bool

-- The machine's `float`, with the operations that the calibration uses. `bits` and `of_bits` are its
-- IEEE 754 image; `literal n d` is the constant n / d.
pub record Floats (F : Type 0) : Type 0 where
  pub of_u16 : ℕ → F
  pub of_i16 : ℤ → F
  pub literal : ℕ → ℕ → F
  pub plus : F → F → F
  pub times : F → F → F
  pub over : F → F → F
  pub below : F → F → Bool
  pub to_u16 : F → ℕ
  pub bits : F → ℕ
  pub of_bits : ℕ → F

-- `mc_diag_calib_t`
pub record Calib (F : Type 0) : Type 0 where
  pub is_gain : F
  pub is_offset_mv : ℤ
  pub kilis : F
  pub vbat_gain : F
  pub vbat_offset_mv : ℤ

-- `mc_diag_hal_t`, by what its functions return during one call; a function that is NULL is `none`.
pub record Readings : Type 0 where
  pub channel_mv : Option (ℕ → ℕ)
  pub vbat_mv : Option ℕ

-- `mc_diag_t`, but for its HAL
pub record Diag (F : Type 0) : Type 0 where
  pub config : DiagConfig
  pub calib : Calib F
  pub current_ma : ℕ → ℕ
  pub fault : ℕ → Fault
  pub fault_mask : ℕ
  pub battery_mv : ℕ
  pub engine_running : Bool
  pub lv_cutoff_active : Bool
  pub next_sample_channel : ℕ

module _ {F : Type 0} (fl : Floats F) where
  open fl use {of_u16, of_i16, literal, plus, times, over, below, to_u16}

  -- `if (x < 0.0f) x = 0.0f;` and `if (x > 65535.0f) x = 65535.0f;`
  abbrev at_least_zero : F → F
  at_least_zero x = if below x (literal 0 1) then literal 0 1 else x

  abbrev at_most_top : F → F
  at_most_top x = if below (literal 65535 1) x then literal 65535 1 else x

  -- `calc_current_ma`
  unfoldable pub calc_current_ma : Calib F → ℕ → ℕ
  calc_current_ma calib raw_mv =
      let mv =
        at_least_zero (times (plus (of_u16 raw_mv) (of_i16 calib.is_offset_mv)) calib.is_gain) in
      let ma = at_least_zero (times (over mv (literal 2000 1)) calib.kilis) in
      to_u16 (plus (at_most_top ma) (literal 1 2))

  -- `calc_battery_mv`
  unfoldable pub calc_battery_mv : Calib F → ℕ → ℕ
  calc_battery_mv calib raw_mv =
      let mv =
        at_least_zero
          (times (plus (of_u16 raw_mv) (of_i16 calib.vbat_offset_mv)) calib.vbat_gain) in
      to_u16 (plus (at_most_top mv) (literal 1 2))
