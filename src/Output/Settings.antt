-- ===== src/Output/Settings.antt =====
-- `mc_output_config_default` and `mc_output_config_validate` of firmware/components/core/mc_output.c.
use moto_ctrl.Base.{
  ℕ, ◌+◌, ℤ, pos, negsuc, minus_one, Bool, false, not, ◌&&◌, ◌||◌, [], ltb, leb, ◌==◌,
  if◌then◌else◌, for_range, any_from,
}
use moto_ctrl.Output.Types.{toggle, no_side, Channel, Config, output_count}

unfoldable pub default_channel : Channel
default_channel = record {
  name = [];
  behaviour = toggle;
  commanded_on = false;
  pwm_duty_pct = 100;
  essential = false;
  is_ignition = false;
  is_starter = false;
  is_brake = false;
  indicator = no_side;
  hazard_member = false;
  on_with_ignition = false;
  alternate_channel = minus_one;
}

-- `mc_output_config_default`
unfoldable pub config_default : Config
unfolding default_channel
config_default = record {
  channels = λ _. default_channel;
  starter_interlock_input = minus_one;
  brake_switch_input = minus_one;
  turn_auto_cancel_ms = 30000;
  turn_flash_period_ms = 700;
  brake_flash_pulse_count = 3;
  brake_flash_pulse_on_ms = 150;
  brake_flash_pulse_off_ms = 50;
}

-- The bits of `mc_output_config_flags_t`.
pub record Flags : Type 0 where
  pub multiple_ignition : Bool
  pub multiple_starter : Bool
  pub bad_pwm_duty : Bool
  pub bad_turn_period : Bool
  pub bad_alternate : Bool
  pub alternate_both_ignition : Bool

-- MC_OUT_CFG_OK
abbrev pub no_flags : Flags
no_flags = record {
  multiple_ignition = false;
  multiple_starter = false;
  bad_pwm_duty = false;
  bad_turn_period = false;
  bad_alternate = false;
  alternate_both_ignition = false;
}

-- The counting loop of `mc_output_config_validate`, for one role.
unfoldable pub count_role : (Channel → Bool) → Config → ℕ
count_role role config =
    for_range output_count 0 (λ i n. if role (config.channels i) then n + 1 else n) 0

-- `partner == (int8_t)i`
abbrev pub is_index : ℤ → ℕ → Bool
is_index (pos p) i = p == i
is_index (negsuc _) i = false

-- Whether round `i` of the loop over pairs raises MC_OUT_CFG_BAD_ALTERNATE.
unfoldable pub pair_is_bad : Config → ℕ → Bool
pair_is_bad config i = elim (config.channels i).alternate_channel [
  | negsuc _ ↦ false
  | pos p ↦ leb output_count p || p == i || not (is_index (config.channels p).alternate_channel i)
]

-- Whether round `i` of that loop raises MC_OUT_CFG_ALTERNATE_BOTH_IGNITION, past its `continue`s.
unfoldable pub pair_is_ambiguous : Config → ℕ → Bool
unfolding pair_is_bad
pair_is_ambiguous config i = elim (config.channels i).alternate_channel [
  | negsuc _ ↦ false
  | pos p ↦
      not (pair_is_bad config i)
      && (config.channels i).on_with_ignition
      && (config.channels p).on_with_ignition
]

-- `mc_output_config_validate`. A loop that only ever raises one flag is whether some round does.
unfoldable pub config_validate : Config → Flags
unfolding count_role pair_is_bad pair_is_ambiguous
config_validate config = record {
  multiple_ignition = ltb 1 (count_role (λ c. c.is_ignition) config);
  multiple_starter = ltb 1 (count_role (λ c. c.is_starter) config);
  bad_pwm_duty =
      any_from output_count 0
        (λ i. ltb (config.channels i).pwm_duty_pct 1 || ltb 100 (config.channels i).pwm_duty_pct);
  bad_turn_period = config.turn_flash_period_ms == 0;
  bad_alternate = any_from output_count 0 (pair_is_bad config);
  alternate_both_ignition = any_from output_count 0 (pair_is_ambiguous config);
}
