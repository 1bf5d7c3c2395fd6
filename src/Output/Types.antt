-- ===== src/Output/Types.antt =====
-- The types of firmware/components/core/include/mc_output.h.
use moto_ctrl.Base.{ℕ, ℤ, Bool, List}

-- MC_OUTPUT_COUNT and MC_INPUT_COUNT of mc_types.h
abbrev pub output_count : ℕ
output_count = 12

abbrev pub input_count : ℕ
input_count = 8

-- `mc_output_behaviour_t`; the last is the enumeration's own count, which no channel should hold.
pub data Behaviour : Type 0 where
  toggle momentary blink flasher behaviour_count : Behaviour

-- `mc_indicator_side_t`
pub data Side : Type 0 where
  no_side left right : Side

-- `mc_output_source_t`
pub data Source : Type 0 where
  local remote : Source

-- `mc_output_result_t`
pub data Result : Type 0 where
  ok bad_channel starter_remote_blocked starter_engine_running starter_interlock : Result
  immobilized_refusal : Result

-- `mc_output_channel_config_t`
pub record Channel : Type 0 where
  pub name : List ℕ
  pub behaviour : Behaviour
  pub commanded_on : Bool
  pub pwm_duty_pct : ℕ
  pub essential : Bool
  pub is_ignition : Bool
  pub is_starter : Bool
  pub is_brake : Bool
  pub indicator : Side
  pub hazard_member : Bool
  pub on_with_ignition : Bool
  pub alternate_channel : ℤ

-- `mc_output_config_t`
pub record Config : Type 0 where
  pub channels : ℕ → Channel
  pub starter_interlock_input : ℤ
  pub brake_switch_input : ℤ
  pub turn_auto_cancel_ms : ℕ
  pub turn_flash_period_ms : ℕ
  pub brake_flash_pulse_count : ℕ
  pub brake_flash_pulse_on_ms : ℕ
  pub brake_flash_pulse_off_ms : ℕ

-- One call through `mc_output_hal_t`: `set(channel, on)` or `set_duty(channel, duty_pct)`.
pub data HalCall : Type 0 where
  level : ℕ → Bool → HalCall
  duty : ℕ → ℕ → HalCall

-- Which function pointers of `mc_output_hal_t` are not NULL.
pub record Hal : Type 0 where
  pub has_set : Bool
  pub has_set_duty : Bool

-- `mc_output_engine_t`. `calls` is what went through the HAL, the newest first. Bit `c` of the mask
-- `hazard_saved_mask` is its value at `c`.
pub record Engine : Type 0 where
  pub config : Config
  pub hal : Hal
  pub calls : List HalCall
  pub engine_running : Bool
  pub interlock_engaged : Bool
  pub immobilized : Bool
  pub lv_cutoff : Bool
  pub last_tick_ms : ℕ
  pub turn_auto_cancel_deadline_ms : ℕ → ℕ
  pub brake_burst_started_ms : ℕ → ℕ
  pub hazard_active : Bool
  pub hazard_saved_mask : ℕ → Bool

-- `eng->config.channels[i]`
abbrev pub channel : Engine → ℕ → Channel
channel eng i = eng.config.channels i
