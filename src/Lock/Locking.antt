-- ===== src/Lock/Locking.antt =====
-- What a bike looks like when it enters LOCKED.
use moto_ctrl.Base.{
  ℕ, ◌<◌, ◌≡◌, sym, Bool, true, false, not, ◌&&◌, none, some, arith, Option-cases, inl, inr, subst,
}
use moto_ctrl.Crypto.{Nacl}
use moto_ctrl.Output.Types.{local, Engine, channel, output_count}
use moto_ctrl.Output.Drive.{get_state}
use moto_ctrl.Output.Parts.{find_ignition_channel}
use moto_ctrl.Output.Clock.{set_immobilized}
use moto_ctrl.Output.Switch.{SameRoles}
use moto_ctrl.Output.Trace.{roles-set}
use moto_ctrl.Lock.Types.{LockConfig, Lock, Inputs}
use moto_ctrl.Lock.Moves.{
  ignition_is_live, is_locked, force_off_on_lock, enter_locked, enter_disabled,
}
use moto_ctrl.Lock.Settings.{apply_config, transfer_ownership, init}
use moto_ctrl.Lock.Cheatcode.{cheatcode_press, set_cheatcode, clear_cheatcode}
use moto_ctrl.Lock.Clock.{run_timers, mirror_switch, advance, tick, request_lock, request_unlock}
use moto_ctrl.Lock.Sweep.{OneIgnition, ignition_is_live-false, sweep_lem}
use moto_ctrl.Lock.Machine.{
  Event, time, lock_now, unlock_now, press, set_code, clear_code, configure, transfer, drive, step,
}
use moto_ctrl.Lock.Invariant.{mirrored}

-- No channel is on but the members of running hazards.
pub record IsDark (s : Engine) : Type 0 where
  pub at :
      (j : ℕ)
      → j < output_count
      → (channel s j).commanded_on ≡ true
      → (s.hazard_active ≡ true) × ((channel s j).hazard_member ≡ true)

IsDark-sweep :
    (s : Engine) → OneIgnition s → ignition_is_live s ≡ false → IsDark (force_off_on_lock s)
IsDark-sweep s one dead = record {
  at = λ j lt on. ground (arith, sweep_lem s (ignition_is_live-false s one dead) j lt);
}

roles-mirror_switch :
    (l : Lock) (prev level : Bool) (s : Engine) → SameRoles s (mirror_switch l prev level s)
unfolding mirror_switch
roles-mirror_switch l prev level s = record {
  at = λ j lt. elim (Option-cases (find_ignition_channel s.config)) [
    | inl e ↦ ground arith
    | inr (ign, e) ↦ ground (arith, (roles-set s ign level local).at j lt)
  ];
}

OneIgnition-mirror_switch :
    (l : Lock) (prev level : Bool) (s : Engine)
    → OneIgnition s
    → OneIgnition (mirror_switch l prev level s)
OneIgnition-mirror_switch l prev level s one = record {
  at = λ i j lt lt' is is'.
      one.at i j lt lt' (ground (arith, (roles-mirror_switch l prev level s).at i lt))
        (ground (arith, (roles-mirror_switch l prev level s).at j lt'));
}

-- A tick that locks sweeps the engine as the mirroring of the switch left it, with the ignition off.
tick-locks :
    (now : ℕ) (inputs : Inputs) (l : Lock) (s : Engine)
    → is_locked l.state ≡ false
    → is_locked (tick now inputs l s).0.state ≡ true
    → let m = mirrored now inputs.ignition_switch_level l s in
      ((tick now inputs l s).1 ≡ set_immobilized true (force_off_on_lock m))
      × (ignition_is_live m ≡ false)
unfolding tick advance enter_locked enter_disabled run_timers
tick-locks now inputs l s was is = ground arith

request_lock-locks :
    (l : Lock) (s : Engine)
    → is_locked l.state ≡ false
    → is_locked (request_lock l s).1.state ≡ true
    → ((request_lock l s).2 ≡ set_immobilized true (force_off_on_lock s))
      × (ignition_is_live s ≡ false)
unfolding request_lock enter_locked
request_lock-locks l s was is = ground arith

IsDark-set_immobilized : (on : Bool) (s : Engine) → IsDark s → IsDark (set_immobilized on s)
unfolding set_immobilized
IsDark-set_immobilized on s h = record { at = h.at }

-- Whatever event locks a bike with one ignition channel leaves no channel on but the members of
-- running hazards.
pub step-locks-IsDark :
    (nacl : Nacl) (e : Event) (l : Lock) (s : Engine)
    → OneIgnition s
    → is_locked l.state ≡ false
    → is_locked (step nacl e (l, s)).0.state ≡ true
    → IsDark (step nacl e (l, s)).1
unfolding step request_unlock cheatcode_press set_cheatcode clear_cheatcode apply_config
    enter_disabled transfer_ownership
step-locks-IsDark nacl (time now inputs) l s one was is =
    let (e, dead) = tick-locks now inputs l s was is in
    let m = mirrored now inputs.ignition_switch_level l s in
    subst IsDark (sym e) (
      IsDark-set_immobilized true _ (
        IsDark-sweep m
          (OneIgnition-mirror_switch (run_timers now l) l.prev_ignition_switch_level
            inputs.ignition_switch_level s one)
          dead))
step-locks-IsDark nacl lock_now l s one was is =
    let (e, dead) = request_lock-locks l s was is in
    subst IsDark (sym e) (IsDark-set_immobilized true _ (IsDark-sweep s one dead))
step-locks-IsDark nacl unlock_now l s one was is = absurd (ground arith)
step-locks-IsDark nacl (press now button) l s one was is = absurd (ground arith)
step-locks-IsDark nacl (set_code buttons none) l s one was is = absurd (ground arith)
step-locks-IsDark nacl (set_code buttons (some salt)) l s one was is = absurd (ground arith)
step-locks-IsDark nacl clear_code l s one was is = absurd (ground arith)
step-locks-IsDark nacl (configure enabled mask input grace window) l s one was is =
    absurd (ground arith)
step-locks-IsDark nacl transfer l s one was is = absurd (ground arith)
step-locks-IsDark nacl (drive op) l s one was is = absurd (ground arith)

-- The boot locks a bike exactly if the lock is enabled, was locked when the power went, and nothing
-- says that the bike is being ridden.
pub init-locks :
    (config : LockConfig) (flag : Bool) (s : Engine)
    → is_locked (init config flag s).0.state
      ≡ config.immobilizer_enabled && flag && not s.engine_running && not (ignition_is_live s)
unfolding init
init-locks config flag s = ground arith

-- A bike with one ignition channel that the boot locks has no channel on but the members of running
-- hazards.
pub init-locks-IsDark :
    (config : LockConfig) (flag : Bool) (s : Engine)
    → OneIgnition s
    → is_locked (init config flag s).0.state ≡ true
    → IsDark (init config flag s).1
unfolding init set_immobilized ignition_is_live find_ignition_channel get_state
init-locks-IsDark config flag s one is =
    let held = set_immobilized true s in
    let locks : ((init config flag s).1 ≡ force_off_on_lock held)
        × (ignition_is_live held ≡ false) =
      ground arith in
    subst IsDark (sym locks.0) (IsDark-sweep held (record { at = one.at }) locks.1)
