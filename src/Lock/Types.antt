-- ===== src/Lock/Types.antt =====
-- The types of firmware/components/core/include/mc_lock.h.
use moto_ctrl.Base.{ℕ, ◌/◌, ◌%◌, ℤ, Bool, List, ◌==◌}

-- The bits of `methods_mask` (mc_protocol.h).
abbrev pub has_phone : ℕ → Bool
has_phone mask = mask % 2 == 1

abbrev pub has_ignition_switch : ℕ → Bool
has_ignition_switch mask = (mask / 2) % 2 == 1

abbrev pub cheatcode_min_len : ℕ
cheatcode_min_len = 4

abbrev pub cheatcode_max_len : ℕ
cheatcode_max_len = 10

-- `mc_lock_config_t`
pub record LockConfig : Type 0 where
  pub immobilizer_enabled : Bool
  pub methods_mask : ℕ
  pub ignition_switch_input : ℤ
  pub auto_lock_grace_ms : ℕ
  pub cheatcode_window_ms : ℕ
  pub cheatcode_set : Bool
  pub cheatcode_len : ℕ
  pub cheatcode_salt : List ℕ
  pub cheatcode_hash : List ℕ

-- `mc_lock_internal_state_t`
pub data LockState : Type 0 where
  disabled unlocked parked locked : LockState

-- `mc_lock_t`; `entry` is the first `entry_len` bytes of `entry_buf`.
pub record Lock : Type 0 where
  pub config : LockConfig
  pub state : LockState
  pub locked_flag : Bool
  pub parked_since_ms : ℕ
  pub entry : List ℕ
  pub entry_start_ms : ℕ
  pub consecutive_wrong : ℕ
  pub backoff_until_ms : ℕ
  pub last_attempt_ms : ℕ
  pub backoff_active : Bool
  pub prev_ignition_switch_level : Bool
  pub dirty : Bool

-- `mc_lock_inputs_t`
pub record Inputs : Type 0 where
  pub ignition_switch_level : Bool
  pub engine_running : Bool

-- `mc_lock_result_t`
pub data LockResult : Type 0 where
  ok rejected unauthorized : LockResult

-- `mc_lock_cheatcode_outcome_t`
pub data Outcome : Type 0 where
  pending match mismatch in_backoff not_set : Outcome
