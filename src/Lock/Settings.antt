-- ===== src/Lock/Settings.antt =====
-- The configuration part of firmware/components/core/mc_lock.c, with the boot and ownership transfer.
use moto_ctrl.Base.{
  ℕ, ℤ, pos, negsuc, minus_one, Bool, true, false, not, ◌&&◌, ◌||◌, none, some, [], ltb,
  if◌then◌else◌, replicate,
}
use moto_ctrl.Output.Types.{Config, Engine, input_count}
use moto_ctrl.Output.Parts.{find_ignition_channel}
use moto_ctrl.Output.Clock.{set_immobilized}
use moto_ctrl.Lock.Types.{has_ignition_switch, LockConfig, disabled, unlocked, locked, Lock}
use moto_ctrl.Lock.Moves.{ignition_is_live, force_off_on_lock, enter_disabled}

-- `mc_lock_config_default`
unfoldable pub config_default : LockConfig
config_default = record {
  immobilizer_enabled = false;
  methods_mask = 0;
  ignition_switch_input = minus_one;
  auto_lock_grace_ms = 60000;
  cheatcode_window_ms = 5000;
  cheatcode_set = false;
  cheatcode_len = 0;
  cheatcode_salt = replicate 16 0;
  cheatcode_hash = replicate 64 0;
}

-- The bits of `mc_lock_config_flags_t`.
pub record LockFlags : Type 0 where
  pub requires_fallback : Bool
  pub requires_ignition_channel : Bool
  pub bad_ignition_switch_input : Bool

-- MC_LOCK_CFG_OK
abbrev pub no_lock_flags : LockFlags
no_lock_flags = record {
  requires_fallback = false;
  requires_ignition_channel = false;
  bad_ignition_switch_input = false;
}

-- `0 <= input && input < MC_INPUT_COUNT`
abbrev pub is_input : ℤ → Bool
is_input (pos i) = ltb i input_count
is_input (negsuc _) = false

-- `mc_lock_config_validate`
unfoldable pub config_validate : LockConfig → Config → LockFlags
config_validate cfg outputs =
    let switch = has_ignition_switch cfg.methods_mask in
    let has_switch = switch && is_input cfg.ignition_switch_input in
    record {
      requires_fallback = cfg.immobilizer_enabled && not cfg.cheatcode_set && not has_switch;
      requires_ignition_channel =
          cfg.immobilizer_enabled
          && elim (find_ignition_channel outputs) [ none ↦ true | some _ ↦ false ];
      bad_ignition_switch_input = switch && not (is_input cfg.ignition_switch_input);
    }

abbrev pub any_lock_flag : LockFlags → Bool
any_lock_flag f = f.requires_fallback || f.requires_ignition_channel || f.bad_ignition_switch_input

abbrev blank : LockConfig → Lock
blank config = record {
  config = config;
  state = disabled;
  locked_flag = false;
  parked_since_ms = 0;
  entry = [];
  entry_start_ms = 0;
  consecutive_wrong = 0;
  backoff_until_ms = 0;
  last_attempt_ms = 0;
  backoff_active = false;
  prev_ignition_switch_level = false;
  dirty = false;
}

-- `mc_lock_init`
unfoldable pub init : LockConfig → Bool → Engine → Lock × Engine
unfolding set_immobilized
init config persisted_locked_flag output =
    let riding = output.engine_running || ignition_is_live output in
    let lock = blank config in
    if not config.immobilizer_enabled
    then (lock, set_immobilized false output)
    else if persisted_locked_flag && not riding
    then (
      record lock { state = locked; locked_flag = true },
      force_off_on_lock (set_immobilized true output),
    )
    else (
      record lock { state = unlocked; dirty = persisted_locked_flag && riding },
      set_immobilized false output,
    )

-- `mc_lock_apply_config`
unfoldable pub apply_config :
    Lock → Engine → Config → Bool → ℕ → ℤ → ℕ → ℕ → LockFlags × Lock × Engine
apply_config lock output outputs enabled mask switch_input grace_ms window_ms =
    let candidate = record lock.config {
      immobilizer_enabled = enabled;
      methods_mask = mask;
      ignition_switch_input = switch_input;
      auto_lock_grace_ms = grace_ms;
      cheatcode_window_ms = window_ms;
    } in
    let flags = config_validate candidate outputs in
    let was_enabled = lock.config.immobilizer_enabled in
    let applied = record lock { config = candidate; dirty = true } in
    if any_lock_flag flags
    then (flags, lock, output)
    else if not enabled && was_enabled
    then (let (lock', output') = enter_disabled applied output in (flags, lock', output'))
    else if enabled && not was_enabled
    then (flags, record applied { state = unlocked }, output)
    else (flags, applied, output)

-- `mc_lock_transfer_ownership`, which is also `mc_lock_factory_reset`
unfoldable pub transfer_ownership : Lock → Engine → Lock × Engine
unfolding config_default
transfer_ownership lock output =
    let (lock', output') = enter_disabled lock output in
    (record lock' { config = config_default; dirty = true }, output')
