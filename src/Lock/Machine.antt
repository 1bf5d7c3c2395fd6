-- ===== src/Lock/Machine.antt =====
-- The lock beside the output engine, as one machine over the calls of their two headers.
use moto_ctrl.Base.{ℕ, ℤ, Bool, Option, List, [], ◌∷◌}
use moto_ctrl.Crypto.{Nacl}
use moto_ctrl.Output.Types.{Engine}
use moto_ctrl.Output.Trace.{
  Op, command, alternate, press_hazards, pass_time, engine, interlock, immobilize, cutoff, restore,
  engine_running-set_engine_running, still-tick, still-set_lv_cutoff, still-restore_from_config,
}
use moto_ctrl.Output.Trace
use moto_ctrl.Lock.Types.{Lock, Inputs}
use moto_ctrl.Lock.Settings.{apply_config, transfer_ownership}
use moto_ctrl.Lock.Cheatcode.{cheatcode_press, set_cheatcode, clear_cheatcode}
use moto_ctrl.Lock.Clock.{tick, request_lock, request_unlock}

-- An event: a call of mc_lock.h, or a call of mc_output.h by another module.
pub data Event : Type 0 where
  time : ℕ → Inputs → Event
  lock_now : Event
  unlock_now : Event
  press : ℕ → ℕ → Event
  set_code : List ℕ → Option (List ℕ) → Event
  clear_code : Event
  configure : Bool → ℕ → ℤ → ℕ → ℕ → Event
  transfer : Event
  drive : Op → Event

abbrev pub System : Type 0
System = Lock × Engine

module _ (nacl : Nacl) where
  unfoldable pub step : Event → System → System
  step (time now inputs) (lock, output) = tick now inputs lock output
  step lock_now (lock, output) =
      let (_, lock', output') = request_lock lock output in (lock', output')
  step unlock_now (lock, output) =
      let (_, lock', output') = request_unlock lock output in (lock', output')
  step (press now button) (lock, output) =
      let (_, lock', output') = cheatcode_press nacl lock output now button in (lock', output')
  step (set_code buttons random) (lock, output) =
      ((set_cheatcode nacl lock buttons random).1, output)
  step clear_code (lock, output) = ((clear_cheatcode lock).1, output)
  step (configure enabled mask input grace window) (lock, output) =
      let (_, lock', output') =
        apply_config lock output output.config enabled mask input grace window in
      (lock', output')
  step transfer (lock, output) = transfer_ownership lock output
  step (drive op) (lock, output) = (lock, Trace.step op output)

  unfoldable pub run : List Event → System → System
  run [] s = s
  run (e ∷ es) s = run es (step e s)
