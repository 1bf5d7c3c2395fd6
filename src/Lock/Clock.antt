-- ===== src/Lock/Clock.antt =====
-- The tick and the two commands of firmware/components/core/mc_lock.c.
use moto_ctrl.Base.{
  ℕ, Bool, not, ◌&&◌, ◌||◌, none, some, [], ltb, leb, if◌then◌else◌, elapsed_at_least, length,
}
use moto_ctrl.Output.Types.{Engine, local}
use moto_ctrl.Output.Drive.{get_state}
use moto_ctrl.Output.Parts.{same_bit, is_assigned, find_ignition_channel}
use moto_ctrl.Output.Command.{set}
use moto_ctrl.Lock.Types.{
  has_phone, has_ignition_switch, LockState, disabled, unlocked, parked, locked, Lock, Inputs,
  LockResult, ok, rejected, unauthorized,
}
use moto_ctrl.Lock.Moves.{
  ignition_is_live, is_locked, enter_locked, enter_unlocked, enter_parked, enter_disabled,
}

-- The timers at the top of `mc_lock_tick`; MC_LOCK_QUIET_RESET_MS is five minutes.
unfoldable pub run_timers : ℕ → Lock → Lock
run_timers now_ms lock =
    let active = lock.backoff_active && not (leb lock.backoff_until_ms now_ms) in
    let quiet =
      ltb 0 lock.consecutive_wrong
      && not active
      && elapsed_at_least now_ms lock.last_attempt_ms 300000 in
    let timed_out =
      ltb 0 (length lock.entry)
      && elapsed_at_least now_ms lock.entry_start_ms lock.config.cheatcode_window_ms in
    record lock {
      backoff_active = active;
      consecutive_wrong = if quiet then 0 else lock.consecutive_wrong;
      entry = if timed_out then [] else lock.entry;
    }

-- A movement of the ignition switch outside LOCKED, which `mc_lock_tick` mirrors on the ignition.
-- `prev` is the level that the lock saw before.
unfoldable pub mirror_switch : Lock → Bool → Bool → Engine → Engine
mirror_switch lock prev level output =
    let active =
      has_ignition_switch lock.config.methods_mask
      && is_assigned lock.config.ignition_switch_input in
    if active && not (same_bit level prev) && not (is_locked lock.state)
    then elim (find_ignition_channel output.config) [
      | none ↦ output
      | some ign ↦
          if same_bit level (get_state output ign) then output else (set output ign level local).1
    ]
    else output

-- The `switch` on the state that ends `mc_lock_tick`.
unfoldable pub advance : LockState → Bool → Bool → ℕ → Lock → Engine → Lock × Engine
advance disabled guard level now_ms lock output = (record lock { state = unlocked }, output)
advance unlocked guard level now_ms lock output =
    (if guard then enter_parked lock now_ms else lock, output)
advance parked guard level now_ms lock output =
    if not guard
    then (record lock { state = unlocked }, output)
    else if elapsed_at_least now_ms lock.parked_since_ms lock.config.auto_lock_grace_ms
    then enter_locked lock output
    else (lock, output)
advance locked guard level now_ms lock output =
    if level && has_ignition_switch lock.config.methods_mask
    then enter_unlocked lock output
    else (lock, output)

-- `mc_lock_tick`
unfoldable pub tick : ℕ → Inputs → Lock → Engine → Lock × Engine
unfolding run_timers mirror_switch
tick now_ms inputs lock output =
    let timed = run_timers now_ms lock in
    let level = inputs.ignition_switch_level in
    let seen = record timed { prev_ignition_switch_level = level } in
    let output' = mirror_switch timed timed.prev_ignition_switch_level level output in
    let guard = not inputs.engine_running && not (ignition_is_live output') in
    if not lock.config.immobilizer_enabled
    then (elim timed.state [ disabled ↦ (timed, output) | _ ↦ enter_disabled timed output ])
    else advance seen.state guard level now_ms seen output'

-- `mc_lock_request_lock`
unfoldable pub request_lock : Lock → Engine → LockResult × Lock × Engine
request_lock lock output =
    if not lock.config.immobilizer_enabled
    then (unauthorized, lock, output)
    else if is_locked lock.state
    then (ok, lock, output)
    else if output.engine_running || ignition_is_live output
    then (rejected, lock, output)
    else (let (lock', output') = enter_locked lock output in (ok, lock', output'))

-- `mc_lock_request_unlock`
unfoldable pub request_unlock : Lock → Engine → LockResult × Lock × Engine
request_unlock lock output =
    if not (is_locked lock.state)
    then (ok, lock, output)
    else if not (has_phone lock.config.methods_mask)
    then (unauthorized, lock, output)
    else (let (lock', output') = enter_unlocked lock output in (ok, lock', output'))
