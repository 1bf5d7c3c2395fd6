-- ===== src/Lock/Release.antt =====
-- How the lock leaves LOCKED, and what a bike that it holds does meanwhile.
use moto_ctrl.Base.{
  ℕ, ℤ, ◌≡◌, sym, ◌∙◌, Bool, true, false, not, ◌&&◌, Option, none, some, List, [], ◌∷◌, arith, ltb,
}
use moto_ctrl.Crypto.{Nacl}
use moto_ctrl.Output.Types.{Engine, input_count}
use moto_ctrl.Lock.Types.{has_phone, has_ignition_switch, Lock, Inputs, LockConfig}
use moto_ctrl.Lock.Moves.{is_locked, enter_locked, enter_unlocked, enter_disabled}
use moto_ctrl.Lock.Settings.{apply_config, transfer_ownership, config_validate, any_lock_flag}
use moto_ctrl.Lock.Cheatcode.{
  cheatcode_press, set_cheatcode, clear_cheatcode, buffer_press, judge, test_cheatcode, count_wrong,
}
use moto_ctrl.Lock.Clock.{request_lock, request_unlock, run_timers, advance, tick}
use moto_ctrl.Lock.Machine.{
  Event, time, lock_now, unlock_now, press, set_code, clear_code, configure, transfer, drive,
  System, step, run,
}
use moto_ctrl.Lock.Invariant.{Sound}
use moto_ctrl.Lock.Soundness.{AllOwn, Sound-step}

-- The configuration that a request to change it asks for.
abbrev pub asked_for : Lock → Bool → ℕ → ℤ → ℕ → ℕ → LockConfig
asked_for l enabled mask input grace window = record l.config {
  immobilizer_enabled = enabled;
  methods_mask = mask;
  ignition_switch_input = input;
  auto_lock_grace_ms = grace;
  cheatcode_window_ms = window;
}

-- What an event must have to release a locked bike: the key in the switch where the switch may unlock,
-- a command where the phone may unlock, the last button of the code, or a change of the configuration
-- that turns the immobilizer off, and the transfer of the ownership.
unfoldable pub releases : Nacl → Event → System → Bool
releases nacl (time now inputs) (l, s) =
    inputs.ignition_switch_level && has_ignition_switch l.config.methods_mask
releases nacl unlock_now (l, s) = has_phone l.config.methods_mask
releases nacl (press now button) (l, s) =
    ltb button input_count
    && not l.backoff_active
    && test_cheatcode nacl l.config (buffer_press l now button).entry
releases nacl (configure enabled mask input grace window) (l, s) =
    not enabled
    && not (any_lock_flag (config_validate (asked_for l enabled mask input grace window) s.config))
releases nacl transfer (l, s) = true
releases nacl _ _ = false

module _ (nacl : Nacl) (l : Lock) (s : Engine) (h : Sound l s) (is : is_locked l.state ≡ true) where
  tick-releases :
      (now : ℕ) (inputs : Inputs)
      → is_locked (tick now inputs l s).0.state ≡ not (releases nacl (time now inputs) (l, s))
  unfolding tick advance run_timers enter_unlocked releases
  tick-releases now inputs = ground (arith, h.enabled)

  request_lock-releases : is_locked (request_lock l s).1.state ≡ true
  unfolding request_lock enter_locked
  request_lock-releases = ground arith

  request_unlock-releases :
      is_locked (request_unlock l s).1.state ≡ not (has_phone l.config.methods_mask)
  unfolding request_unlock enter_unlocked
  request_unlock-releases = ground arith

  cheatcode_press-releases :
      (now button : ℕ)
      → is_locked (cheatcode_press nacl l s now button).1.state
        ≡ not (releases nacl (press now button) (l, s))
  unfolding cheatcode_press judge enter_unlocked test_cheatcode releases count_wrong
  cheatcode_press-releases now button = ground arith

  set_cheatcode-releases :
      (buttons : List ℕ) (random : Option (List ℕ))
      → is_locked (set_cheatcode nacl l buttons random).1.state ≡ true
  unfolding set_cheatcode
  set_cheatcode-releases buttons none = ground arith
  set_cheatcode-releases buttons (some salt) = ground arith

  clear_cheatcode-releases : is_locked (clear_cheatcode l).1.state ≡ true
  unfolding clear_cheatcode
  clear_cheatcode-releases = ground arith

  apply_config-releases :
      (enabled : Bool) (mask : ℕ) (input : ℤ) (grace window : ℕ)
      → is_locked (apply_config l s s.config enabled mask input grace window).1.state
        ≡ not (releases nacl (configure enabled mask input grace window) (l, s))
  unfolding apply_config enter_disabled releases
  apply_config-releases enabled mask input grace window = ground (arith, h.enabled)

  transfer_ownership-releases : is_locked (transfer_ownership l s).0.state ≡ false
  unfolding transfer_ownership enter_disabled
  transfer_ownership-releases = ground arith

  -- A locked bike for which the invariant of the lock holds leaves LOCKED exactly when the event has
  -- what releases it.
  pub step-releases :
      (e : Event) → is_locked (step nacl e (l, s)).0.state ≡ not (releases nacl e (l, s))
  unfolding step releases
  step-releases (time now inputs) = tick-releases now inputs
  step-releases lock_now = request_lock-releases
  step-releases unlock_now = request_unlock-releases
  step-releases (press now button) = cheatcode_press-releases now button
  step-releases (set_code buttons random) = set_cheatcode-releases buttons random
  step-releases clear_code = clear_cheatcode-releases
  step-releases (configure enabled mask input grace window) =
      apply_config-releases enabled mask input grace window
  step-releases transfer = transfer_ownership-releases
  step-releases (drive op) = is

-- None of the events, at its turn, has what releases the bike.
unfoldable pub is_held : Nacl → List Event → System → Bool
is_held nacl [] s = true
is_held nacl (e ∷ es) s = not (releases nacl e s) && is_held nacl es (step nacl e s)

-- A locked bike for which the invariant of the lock holds stays locked, its outputs inhibited, through any sequence of events none of which has
-- what releases it or sets the inhibit behind the lock's back.
pub run-holds :
    (nacl : Nacl) (es : List Event) (l : Lock) (s : Engine)
    → AllOwn es
    → Sound l s
    → is_locked l.state ≡ true
    → is_held nacl es (l, s) ≡ true
    → let (l', s') = run nacl es (l, s) in (is_locked l'.state ≡ true) × (s'.immobilized ≡ true)
unfolding run is_held
run-holds nacl [] l s _ h is _ = (is, sym h.sync ∙ is)
run-holds nacl (e ∷ es) l s (own, owns) h is held =
    run-holds nacl es (step nacl e (l, s)).0 (step nacl e (l, s)).1 owns
      (Sound-step nacl e l s own h) (ground (arith, step-releases nacl l s h is e)) (ground arith)
