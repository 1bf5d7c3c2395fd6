-- ===== src/Power/Policy.antt =====
-- firmware/components/core/mc_power.c
use moto_ctrl.Base.{ℕ, Bool, true, false, not, ◌&&◌, ◌||◌, ◌==◌, if◌then◌else◌, elapsed_at_least}

-- `mc_power_state_t`
pub data PowerState : Type 0 where
  active idle parked : PowerState

-- `mc_power_adv_t`
pub data Advertising : Type 0 where
  fast slow : Advertising

-- `mc_power_profile_t`
pub record Profile : Type 0 where
  pub tick_interval_ms : ℕ
  pub adv : Advertising
  pub light_sleep_allowed : Bool

-- `mc_power_inputs_t`
pub record PowerInputs : Type 0 where
  pub outputs_active : Bool
  pub engine_running : Bool
  pub ignition_live : Bool
  pub ota_active : Bool
  pub session_connected : Bool
  pub input_pending : Bool
  pub factory_reset_armed : Bool

-- `mc_power_config_t`
pub record PowerConfig : Type 0 where
  pub idle_after_ms : ℕ
  pub parked_after_ms : ℕ

-- `mc_power_t`
pub record Power : Type 0 where
  pub config : PowerConfig
  pub state : PowerState
  pub last_active_ms : ℕ
  pub profile : Profile
  pub profile_changed : Bool

-- `mc_power_config_default`
unfoldable pub config_default : PowerConfig
config_default = record { idle_after_ms = 5000; parked_after_ms = 60000 }

-- The profile that `set_profile` takes for a state.
abbrev pub profile_of : PowerState → Profile
profile_of parked = record { tick_interval_ms = 250; adv = slow; light_sleep_allowed = true }
profile_of idle = record { tick_interval_ms = 100; adv = fast; light_sleep_allowed = true }
profile_of active = record { tick_interval_ms = 10; adv = fast; light_sleep_allowed = false }

abbrev pub same_adv : Advertising → Advertising → Bool
same_adv fast fast = true
same_adv slow slow = true
same_adv _ _ = false

abbrev pub same_flag : Bool → Bool → Bool
same_flag true b = b
same_flag false b = not b

abbrev pub same_profile : Profile → Profile → Bool
same_profile a b =
    (a.tick_interval_ms == b.tick_interval_ms)
    && (same_adv a.adv b.adv)
    && (same_flag a.light_sleep_allowed b.light_sleep_allowed)

-- `set_profile`
unfoldable pub set_profile : Power → PowerState → Power
set_profile p state = record p {
  profile_changed = if same_profile (profile_of state) p.profile then p.profile_changed else true;
  profile = profile_of state;
  state = state;
}

-- `mc_power_init`
unfoldable pub init : PowerConfig → ℕ → Power
init config now_ms = record {
  config = config;
  state = active;
  last_active_ms = now_ms;
  profile = profile_of active;
  profile_changed = false;
}

-- `hold_awake` of `mc_power_tick`
unfoldable pub hold_awake : PowerInputs → Bool
hold_awake inputs =
    inputs.outputs_active || inputs.engine_running || inputs.ignition_live || inputs.ota_active
    || inputs.input_pending || inputs.factory_reset_armed

-- `mc_power_tick`
unfoldable pub tick : Power → PowerInputs → ℕ → Power
unfolding set_profile hold_awake
tick p inputs now_ms =
    if hold_awake inputs
    then set_profile (record p { last_active_ms = now_ms }) active
    else if inputs.session_connected
    then set_profile p idle
    else if elapsed_at_least now_ms p.last_active_ms p.config.parked_after_ms
    then set_profile p parked
    else if elapsed_at_least now_ms p.last_active_ms p.config.idle_after_ms
    then set_profile p idle
    else set_profile p active

-- `mc_power_take_profile_change`
unfoldable pub take_profile_change : Power → Bool × Power
take_profile_change p = (p.profile_changed, record p { profile_changed = false })
