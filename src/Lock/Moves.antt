-- ===== src/Lock/Moves.antt =====
-- The helpers of firmware/components/core/mc_lock.c and the entries into its states. The output engine
-- that a function changes is returned beside the lock.
use moto_ctrl.Base.{ℕ, Bool, true, false, ◌&&◌, none, some, [], leb, ◌==◌, if◌then◌else◌, for_range}
use moto_ctrl.Output.Types.{Engine, channel, local, output_count}
use moto_ctrl.Output.Drive.{get_state}
use moto_ctrl.Output.Parts.{find_ignition_channel}
use moto_ctrl.Output.Command.{set}
use moto_ctrl.Output.Clock.{set_immobilized}
use moto_ctrl.Lock.Types.{Lock, LockState, disabled, unlocked, parked, locked}

-- `ignition_is_live`
unfoldable pub ignition_is_live : Engine → Bool
ignition_is_live output = elim (find_ignition_channel output.config) [
  | none ↦ false
  | some ch ↦ get_state output ch
]

-- The body of the loop of `force_off_on_lock`.
unfoldable pub force_off : Bool → ℕ → Engine → Engine
force_off hazards_running ch output =
    if hazards_running && (channel output ch).hazard_member
    then output
    else if get_state output ch
    then (set output ch false local).1
    else output

-- `force_off_on_lock`
unfoldable pub force_off_on_lock : Engine → Engine
force_off_on_lock output = for_range output_count 0 (force_off output.hazard_active) output

-- `reset_cheatcode_runtime`
abbrev pub reset_cheatcode_runtime : Lock → Lock
reset_cheatcode_runtime lock = record lock {
  entry = [];
  consecutive_wrong = 0;
  backoff_until_ms = 0;
  backoff_active = false;
}

-- `backoff_duration_ms`; MC_LOCK_FREE_ATTEMPTS is 5.
unfoldable pub backoff_duration_ms : ℕ → ℕ
backoff_duration_ms wrong =
    if leb wrong 5 then 0 else if wrong == 6 then 15000 else if wrong == 7 then 30000 else 60000

abbrev pub is_locked : LockState → Bool
is_locked locked = true
is_locked _ = false

-- `lock->locked_flag = flag`, marked dirty if it was otherwise.
abbrev pub flag_unlocked : Lock → Lock
flag_unlocked lock = record lock {
  locked_flag = false;
  dirty = if lock.locked_flag then true else lock.dirty;
}

-- `enter_locked`
unfoldable pub enter_locked : Lock → Engine → Lock × Engine
unfolding set_immobilized
enter_locked lock output = (
  record lock {
    state = locked;
    locked_flag = true;
    dirty = if lock.locked_flag then lock.dirty else true;
  },
  set_immobilized true (force_off_on_lock output),
)

-- The turn of the key at the end of `enter_unlocked`.
unfoldable pub turn_key : Engine → Engine
turn_key output = elim (find_ignition_channel output.config) [
  | none ↦ output
  | some ign ↦ (set output ign true local).1
]

-- `enter_unlocked`
unfoldable pub enter_unlocked : Lock → Engine → Lock × Engine
unfolding set_immobilized turn_key
enter_unlocked lock output =
    let released = flag_unlocked (record lock { state = unlocked }) in
    if is_locked lock.state
    then (reset_cheatcode_runtime released, turn_key (set_immobilized false output))
    else (released, output)

-- `enter_parked`
abbrev pub enter_parked : Lock → ℕ → Lock
enter_parked lock now_ms = record lock { state = parked; parked_since_ms = now_ms }

-- `enter_disabled`
unfoldable pub enter_disabled : Lock → Engine → Lock × Engine
unfolding set_immobilized
enter_disabled lock output =
    let released = flag_unlocked (record lock { state = disabled }) in
    if is_locked lock.state
    then (reset_cheatcode_runtime released, set_immobilized false output)
    else (released, output)
