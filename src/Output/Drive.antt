-- ===== src/Output/Drive.antt =====
-- What a channel is driven to (firmware/components/core/mc_output.c): the blink phase, the pattern of
-- each behaviour, the low-voltage suppression, and the one place that calls the HAL.
use moto_ctrl.Base.{
  ℕ, ◌+◌, ◌*◌, ◌/◌, ◌%◌, Bool, true, false, not, ◌&&◌, ◌||◌, ◌∷◌, ltb, leb, ◌==◌, if◌then◌else◌,
  u32_mod, sub32, update, for_range, any_from,
}
use moto_ctrl.Output.Types.{
  Behaviour, toggle, momentary, blink, flasher, Channel, Config, HalCall, level, duty, Engine,
  channel, output_count,
}

-- `blink_phase`
unfoldable pub blink_phase : Config → ℕ → Bool
blink_phase config now_ms =
    let half = config.turn_flash_period_ms / 2 in
    if config.turn_flash_period_ms == 0
    then true
    else if half == 0
    then true
    else (now_ms / half) % 2 == 0

-- The FLASHER case of `compute_driven_on`, for a burst that started at `started_ms`.
unfoldable pub flasher_phase : Config → ℕ → ℕ → Bool
flasher_phase config started_ms now_ms =
    let on_ms = config.brake_flash_pulse_on_ms in
    let off_ms = config.brake_flash_pulse_off_ms in
    let count = config.brake_flash_pulse_count in
    let cycle = (on_ms + off_ms) % u32_mod in
    let elapsed = sub32 now_ms started_ms in
    if count == 0 || on_ms == 0 && off_ms == 0
    then true
    else if leb ((cycle * count) % u32_mod) elapsed
    then true
    else ltb (if cycle == 0 then 0 else elapsed % cycle) on_ms

-- The `switch` of `compute_driven_on`.
unfoldable pub behaviour_phase : Behaviour → Config → ℕ → ℕ → Bool
behaviour_phase toggle config started_ms now_ms = true
behaviour_phase momentary config started_ms now_ms = true
behaviour_phase blink config started_ms now_ms = blink_phase config now_ms
behaviour_phase flasher config started_ms now_ms = flasher_phase config started_ms now_ms
behaviour_phase _ config started_ms now_ms = true

-- `compute_driven_on`
unfoldable pub compute_driven_on : Engine → ℕ → ℕ → Bool
compute_driven_on eng ch now_ms =
    let cfg = channel eng ch in
    if not cfg.commanded_on
    then false
    else if eng.hazard_active && cfg.hazard_member
    then blink_phase eng.config now_ms
    else behaviour_phase cfg.behaviour eng.config (eng.brake_burst_started_ms ch) now_ms

-- `mc_output_channel_is_essential`
abbrev pub is_essential : Channel → Bool
is_essential cfg = cfg.essential || cfg.is_ignition || cfg.is_brake

-- `mc_output_get_state`
unfoldable pub get_state : Engine → ℕ → Bool
get_state eng ch = if leb output_count ch then false else (channel eng ch).commanded_on

-- `mc_output_get_actual_state`
unfoldable pub get_actual_state : Engine → ℕ → ℕ → Bool
get_actual_state eng ch now_ms =
    if leb output_count ch
    then false
    else if eng.lv_cutoff && not (is_essential (channel eng ch))
    then false
    else compute_driven_on eng ch now_ms

abbrev pub is_steady : Behaviour → Bool
is_steady toggle = true
is_steady momentary = true
is_steady _ = false

-- The HAL call that `apply_hal_state` makes for a channel.
unfoldable pub hal_call : Engine → ℕ → ℕ → HalCall
hal_call eng ch now_ms =
    let cfg = channel eng ch in
    let driven_on = get_actual_state eng ch now_ms in
    let dimmed = ltb cfg.pwm_duty_pct 100 && is_steady cfg.behaviour in
    if driven_on && dimmed && eng.hal.has_set_duty
    then duty ch cfg.pwm_duty_pct
    else level ch driven_on

-- `apply_hal_state`
unfoldable pub apply_hal_state : ℕ → ℕ → Engine → Engine
apply_hal_state now_ms ch eng = record eng {
  calls = if eng.hal.has_set then hal_call eng ch now_ms ∷ eng.calls else eng.calls;
}

-- `mc_output_restore_from_config`
unfoldable pub restore_from_config : Engine → Engine
restore_from_config eng = for_range output_count 0 (apply_hal_state eng.last_tick_ms) eng

abbrev pub is_flasher : Behaviour → Bool
is_flasher flasher = true
is_flasher _ = false

-- `ch->commanded_on = on`
abbrev pub with_commanded : Channel → Bool → Channel
with_commanded cfg on = record cfg { commanded_on = on }

-- `set_commanded_on_raw`
unfoldable pub set_commanded_on_raw : ℕ → Bool → ℕ → Engine → Engine
unfolding apply_hal_state
set_commanded_on_raw ch on now_ms eng =
    let cfg = channel eng ch in
    let rising = not cfg.commanded_on && on && is_flasher cfg.behaviour in
    apply_hal_state now_ms ch (record eng {
      config = record eng.config {
        channels = update eng.config.channels ch (with_commanded cfg on);
      };
      brake_burst_started_ms =
          if rising
          then update eng.brake_burst_started_ms ch now_ms
          else eng.brake_burst_started_ms;
    })

-- `mc_output_any_active`
unfoldable pub any_active : Engine → ℕ → Bool
any_active eng now_ms =
    any_from output_count 0 (λ ch. (channel eng ch).commanded_on || get_actual_state eng ch now_ms)
