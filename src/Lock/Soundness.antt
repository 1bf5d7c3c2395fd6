-- ===== src/Lock/Soundness.antt =====
-- Every event of the lock and the engine keeps the invariant, from boot on.
use moto_ctrl.Base.{
  ℕ, ℤ, sym, ◌∙◌, Bool, true, false, Option, none, some, List, [], ◌∷◌, length, length-append,
  arith, ◌≤◌,
}
use moto_ctrl.Crypto.{Nacl}
use moto_ctrl.Output.Types.{Engine, Config}
use moto_ctrl.Output.Clock.{set_immobilized}
use moto_ctrl.Lock.Types.{LockConfig, Lock}
use moto_ctrl.Lock.Moves.{enter_locked, enter_unlocked, enter_disabled}
use moto_ctrl.Lock.Settings.{apply_config, transfer_ownership, init, config_validate, any_lock_flag}
use moto_ctrl.Lock.Settings
use moto_ctrl.Lock.Sweep.{frame-force_off_on_lock}
use moto_ctrl.Lock.Cheatcode.{
  cheatcode_press, set_cheatcode, clear_cheatcode, buffer_press, judge, count_wrong,
}
use moto_ctrl.Lock.Clock.{request_lock, request_unlock}
use moto_ctrl.Lock.Machine.{
  Event, time, lock_now, unlock_now, press, set_code, clear_code, configure, transfer, drive, step,
  run,
}
use moto_ctrl.Lock.Invariant.{Sound, IsOwn, Sound-tick, immobilized-step, immobilized-turn_key}

module _ (l : Lock) (s : Engine) (h : Sound l s) where
  Sound-request_lock : let (_, l', s') = request_lock l s in Sound l' s'
  unfolding request_lock enter_locked set_immobilized
  Sound-request_lock = record {
    sync = ground (arith, h.sync);
    flag = ground (arith, h.flag);
    enabled = ground (arith, h.enabled);
    calm = λ e. ground (arith, h.calm);
    short = ground (arith, h.short);
  }

  Sound-request_unlock : let (_, l', s') = request_unlock l s in Sound l' s'
  unfolding request_unlock enter_unlocked set_immobilized
  Sound-request_unlock = record {
    sync = ground (arith, h.sync, immobilized-turn_key (set_immobilized false s));
    flag = ground (arith, h.flag);
    enabled = ground (arith, h.enabled);
    calm = λ e. ground (arith, h.calm);
    short = ground (arith, h.short);
  }

  Sound-set_cheatcode :
      (nacl : Nacl) (buttons : List ℕ) (random : Option (List ℕ))
      → Sound (set_cheatcode nacl l buttons random).1 s
  unfolding set_cheatcode
  Sound-set_cheatcode nacl buttons none = record {
    sync = ground (arith, h.sync);
    flag = ground (arith, h.flag);
    enabled = ground (arith, h.enabled);
    calm = λ e. ground (arith, h.calm);
    short = ground (arith, h.short);
  }
  Sound-set_cheatcode nacl buttons (some salt) = record {
    sync = ground (arith, h.sync);
    flag = ground (arith, h.flag);
    enabled = ground (arith, h.enabled);
    calm = λ e. ground (arith, h.calm);
    short = ground (arith, h.short);
  }

  Sound-clear_cheatcode : Sound (clear_cheatcode l).1 s
  unfolding clear_cheatcode
  Sound-clear_cheatcode = record {
    sync = ground (arith, h.sync);
    flag = ground (arith, h.flag);
    enabled = ground (arith, h.enabled);
    calm = λ e. ground (arith, h.calm);
    short = ground (arith, h.short);
  }

  Sound-transfer_ownership : Sound (transfer_ownership l s).0 (transfer_ownership l s).1
  unfolding transfer_ownership enter_disabled Settings.config_default set_immobilized
  Sound-transfer_ownership = record {
    sync = ground (arith, h.sync);
    flag = ground arith;
    enabled = ground arith;
    calm = λ e. ground (arith, h.calm);
    short = ground (arith, h.short);
  }

  Sound-apply_config :
      (outputs : Config) (enabled : Bool) (mask : ℕ) (input : ℤ) (grace window : ℕ)
      → let (_, l', s') = apply_config l s outputs enabled mask input grace window in Sound l' s'
  unfolding apply_config enter_disabled set_immobilized
  Sound-apply_config outputs enabled mask input grace window = record {
    sync = ground (arith, h.sync, h.enabled);
    flag = ground (arith, h.flag, h.enabled);
    enabled = ground (arith, h.enabled);
    calm = λ e. ground (arith, h.calm, h.enabled);
    short = ground (arith, h.short);
  }

  short-buffer_press : (now button : ℕ) → length (buffer_press l now button).entry ≤ 10
  unfolding buffer_press
  short-buffer_press now button = ground (arith, h.short, length-append l.entry (button ∷ []))

  Sound-cheatcode_press :
      (nacl : Nacl) (now button : ℕ)
      → let (_, l', s') = cheatcode_press nacl l s now button in Sound l' s'
  unfolding cheatcode_press judge count_wrong enter_unlocked set_immobilized
  Sound-cheatcode_press nacl now button = record {
    sync = ground (arith, h.sync, immobilized-turn_key (set_immobilized false s));
    flag = ground (arith, h.flag);
    enabled = ground (arith, h.enabled);
    calm = λ e. ground (arith, h.calm);
    short = ground (arith, h.short, short-buffer_press now button);
  }

pub Sound-step :
    (nacl : Nacl) (e : Event) (l : Lock) (s : Engine)
    → IsOwn e
    → Sound l s
    → Sound (step nacl e (l, s)).0 (step nacl e (l, s)).1
unfolding step
Sound-step nacl (time now inputs) l s _ h = Sound-tick now inputs l s h
Sound-step nacl lock_now l s _ h = Sound-request_lock l s h
Sound-step nacl unlock_now l s _ h = Sound-request_unlock l s h
Sound-step nacl (press now button) l s _ h = Sound-cheatcode_press l s h nacl now button
Sound-step nacl (set_code buttons random) l s _ h = Sound-set_cheatcode l s h nacl buttons random
Sound-step nacl clear_code l s _ h = Sound-clear_cheatcode l s h
Sound-step nacl (configure enabled mask input grace window) l s _ h =
    Sound-apply_config l s h s.config enabled mask input grace window
Sound-step nacl transfer l s _ h = Sound-transfer_ownership l s h
Sound-step nacl (drive op) l s own h = record {
  sync = h.sync ∙ sym (immobilized-step op s own);
  flag = h.flag;
  enabled = h.enabled;
  calm = h.calm;
  short = h.short;
}

abbrev pub AllOwn : List Event → Type 0
AllOwn [] = Unit
AllOwn (e ∷ es) = IsOwn e × AllOwn es

pub Sound-run :
    (nacl : Nacl) (es : List Event) (l : Lock) (s : Engine)
    → AllOwn es
    → Sound l s
    → Sound (run nacl es (l, s)).0 (run nacl es (l, s)).1
unfolding run
Sound-run nacl [] l s _ h = h
Sound-run nacl (e ∷ es) l s (own, owns) h =
    Sound-run nacl es (step nacl e (l, s)).0 (step nacl e (l, s)).1 owns
      (Sound-step nacl e l s own h)

pub Sound-init :
    (config : LockConfig) (flag : Bool) (s : Engine)
    → Sound (init config flag s).0 (init config flag s).1
unfolding init set_immobilized
Sound-init config flag s = record {
  sync = ground (arith, frame-force_off_on_lock (set_immobilized true s));
  flag = ground arith;
  enabled = ground arith;
  calm = λ e. ground arith;
  short = ground arith;
}

-- From boot on, through any events of which none sets the inhibit of the outputs behind the lock's
-- back: the outputs are inhibited exactly while the lock is LOCKED, the flag that is persisted says
-- the same, the lock is in its disabled state exactly while it is not enabled, outside LOCKED nothing
-- of a cheat-code is left, and no more than ten buttons are buffered.
pub run-Sound :
    (nacl : Nacl) (config : LockConfig) (flag : Bool) (s : Engine) (es : List Event)
    → AllOwn es
    → let (l', s') = run nacl es (init config flag s) in Sound l' s'
run-Sound nacl config flag s es own =
    Sound-run nacl es (init config flag s).0 (init config flag s).1 own (Sound-init config flag s)
