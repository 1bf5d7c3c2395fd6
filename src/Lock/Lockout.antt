-- ===== src/Lock/Lockout.antt =====
-- Wrong cheat-codes: the count, the back-off that it starts, and how long the back-off holds.
use moto_ctrl.Base.{
  ℕ, ◌+◌, ◌<◌, ◌≤◌, ◌≡◌, refl, Bool, true, false, not, ◌&&◌, List, [], ◌∷◌, length, arith, ltb,
  add32, u32_mod, ℤ, ◌||◌, sym, subst,
}
use moto_ctrl.Crypto.{Nacl}
use moto_ctrl.Output.Types.{Engine, input_count}
use moto_ctrl.Lock.Types.{Lock, Inputs, mismatch, in_backoff, has_phone, has_ignition_switch}
use moto_ctrl.Lock.Moves.{
  is_locked, enter_locked, enter_unlocked, enter_disabled, backoff_duration_ms,
}
use moto_ctrl.Lock.Cheatcode.{
  cheatcode_press, buffer_press, judge, test_cheatcode, count_wrong, set_cheatcode, clear_cheatcode,
}
use moto_ctrl.Lock.Clock.{run_timers, tick, advance, request_lock, request_unlock}
use moto_ctrl.Lock.Settings.{apply_config, any_lock_flag}
use moto_ctrl.Lock.Machine.{
  Event, time, press, lock_now, unlock_now, set_code, clear_code, configure, transfer, drive,
  System, step, run,
}
use moto_ctrl.Lock.Invariant.{Sound}

-- A wrong code after five or more others starts a back-off of at least fifteen seconds and drops what
-- was typed; the bike stays locked.
pub press-starts_backoff :
    (nacl : Nacl) (l : Lock) (s : Engine) (now button : ℕ)
    → is_locked l.state ≡ true
    → l.config.cheatcode_set ≡ true
    → l.backoff_active ≡ false
    → button < input_count
    → l.config.cheatcode_len ≤ length (buffer_press l now button).entry
    → test_cheatcode nacl l.config (buffer_press l now button).entry ≡ false
    → 5 ≤ l.consecutive_wrong
    → l.consecutive_wrong < 65535
    → let (o, l', s') = cheatcode_press nacl l s now button in
      (o ≡ mismatch)
      × (l'.backoff_active ≡ true)
      × (15000 ≤ backoff_duration_ms l'.consecutive_wrong)
      × (l'.backoff_until_ms ≡ add32 now (backoff_duration_ms l'.consecutive_wrong))
      × (l'.entry ≡ [])
      × (is_locked l'.state ≡ true)
      × (s' ≡ s)
unfolding cheatcode_press judge count_wrong backoff_duration_ms buffer_press
press-starts_backoff nacl l s now button holds is_set waits known full wrong five few = ground arith

module _ (nacl : Nacl) where
  -- Events that do not end a back-off: a tick before its deadline with no key turned that may unlock,
  -- an unlock that the methods do not allow, a code that is refused, and a configuration that leaves
  -- the immobilizer enabled or is refused.
  abbrev pub is_early : Event → System → Bool
  is_early (time now inputs) (l, s) =
      ltb now l.backoff_until_ms
      && not (inputs.ignition_switch_level && has_ignition_switch l.config.methods_mask)
  is_early unlock_now (l, s) = not (has_phone l.config.methods_mask)
  is_early (set_code buttons random) (l, s) = not (set_cheatcode nacl l buttons random).0
  is_early (configure enabled mask input grace window) (l, s) =
      enabled || any_lock_flag (apply_config l s s.config enabled mask input grace window).0
  is_early transfer (l, s) = false
  is_early (press now button) (l, s) = true
  is_early lock_now (l, s) = true
  is_early clear_code (l, s) = true
  is_early (drive op) (l, s) = true

  unfoldable pub all_early : List Event → System → Bool
  all_early [] x = true
  all_early (e ∷ es) x = is_early e x && all_early es (step nacl e x)

-- What a back-off keeps.
record LockedOut (wrong deadline : ℕ) (l : Lock) : Type 0 where
  holds : is_locked l.state ≡ true
  enabled : l.config.immobilizer_enabled ≡ true
  is_set : l.config.cheatcode_set ≡ true
  active : l.backoff_active ≡ true
  count : l.consecutive_wrong ≡ wrong
  deadline_ms : l.backoff_until_ms ≡ deadline

module _ (nacl : Nacl) (wrong deadline : ℕ) where
  LockedOut-time :
      (now : ℕ) (inputs : Inputs) (l : Lock) (s : Engine)
      → is_early nacl (time now inputs) (l, s) ≡ true
      → LockedOut wrong deadline l
      → LockedOut wrong deadline (tick now inputs l s).0
  unfolding tick run_timers advance
  LockedOut-time now inputs l s early h = record {
    holds = ground (arith, early, h.holds, h.enabled, h.active, h.deadline_ms);
    enabled = ground (arith, early, h.holds, h.enabled, h.active, h.deadline_ms);
    is_set = ground (arith, early, h.holds, h.enabled, h.active, h.deadline_ms, h.is_set);
    active = ground (arith, early, h.holds, h.enabled, h.active, h.deadline_ms);
    count = ground (arith, early, h.holds, h.enabled, h.active, h.deadline_ms, h.count);
    deadline_ms = ground (arith, early, h.holds, h.enabled, h.active, h.deadline_ms);
  }

  -- An unlock, a code and a configuration that do not end it leave what it keeps.
  LockedOut-same : (l l' : Lock) → l' ≡ l → LockedOut wrong deadline l → LockedOut wrong deadline l'
  LockedOut-same l l' same h = subst (LockedOut wrong deadline) (sym same) h

  LockedOut-configure :
      (enabled : Bool) (mask : ℕ) (input : ℤ) (grace window : ℕ) (l : Lock) (s : Engine)
      → is_early nacl (configure enabled mask input grace window) (l, s) ≡ true
      → LockedOut wrong deadline l
      → LockedOut wrong deadline (apply_config l s s.config enabled mask input grace window).1
  unfolding apply_config
  LockedOut-configure enabled mask input grace window l s early h = record {
    holds = ground (arith, early, h.holds, h.enabled);
    enabled = ground (arith, early, h.enabled);
    is_set = ground (arith, early, h.enabled, h.is_set);
    active = ground (arith, early, h.enabled, h.active);
    count = ground (arith, early, h.enabled, h.count);
    deadline_ms = ground (arith, early, h.enabled, h.deadline_ms);
  }

  LockedOut-step :
      (e : Event) (l : Lock) (s : Engine)
      → is_early nacl e (l, s) ≡ true
      → LockedOut wrong deadline l
      → LockedOut wrong deadline (step nacl e (l, s)).0
  unfolding step cheatcode_press request_lock request_unlock set_cheatcode clear_cheatcode
  LockedOut-step (time now inputs) l s early h = LockedOut-time now inputs l s early h
  LockedOut-step (press now button) l s early h =
      LockedOut-same l _ (ground (arith, h.holds, h.is_set, h.active)) h
  LockedOut-step lock_now l s early h = LockedOut-same l _ (ground (arith, h.holds, h.enabled)) h
  LockedOut-step unlock_now l s early h = LockedOut-same l _ (ground (arith, h.holds, early)) h
  LockedOut-step (set_code buttons random) l s early h =
      LockedOut-same l _ (ground (arith, early)) h
  LockedOut-step clear_code l s early h = LockedOut-same l _ (ground (arith, h.enabled)) h
  LockedOut-step (configure enabled mask input grace window) l s early h =
      LockedOut-configure enabled mask input grace window l s early h
  LockedOut-step transfer l s early h = absurd (ground (arith, early))
  LockedOut-step (drive op) l s early h = h

  LockedOut-run :
      (es : List Event) (l : Lock) (s : Engine)
      → all_early nacl es (l, s) ≡ true
      → LockedOut wrong deadline l
      → LockedOut wrong deadline (run nacl es (l, s)).0
  unfolding run all_early
  LockedOut-run [] l s early h = h
  LockedOut-run (e ∷ es) l s early h =
      LockedOut-run es (step nacl e (l, s)).0 (step nacl e (l, s)).1 (ground arith)
        (LockedOut-step e l s (ground arith) h)

-- On a locked bike with a code set, for which the invariant of the lock holds, a back-off holds through
-- any events but these: a tick at or after its deadline, a tick with the ignition switch on where the
-- switch may unlock, an unlock where the phone may, a new code that is accepted, a configuration that
-- is accepted and disables the immobilizer, and a transfer of ownership. Whatever is typed meanwhile,
-- no code is judged, none counts, the bike stays locked, and a press reports the back-off.
pub run-locked_out :
    (nacl : Nacl) (es : List Event) (l : Lock) (s : Engine) (now button : ℕ)
    → Sound l s
    → is_locked l.state ≡ true
    → l.config.cheatcode_set ≡ true
    → l.backoff_active ≡ true
    → all_early nacl es (l, s) ≡ true
    → let (l', s') = run nacl es (l, s) in
      (l'.backoff_active ≡ true)
      × (l'.consecutive_wrong ≡ l.consecutive_wrong)
      × (is_locked l'.state ≡ true)
      × (cheatcode_press nacl l' s' now button ≡ (in_backoff, l', s'))
unfolding cheatcode_press
run-locked_out nacl es l s now button h holds is_set active early =
    let k = LockedOut-run nacl l.consecutive_wrong l.backoff_until_ms es l s early (record {
      holds = holds;
      enabled = ground (arith, h.enabled);
      is_set = is_set;
      active = active;
      count = refl;
      deadline_ms = refl;
    }) in
    (k.active, k.count, k.holds, ground (arith, k.active, k.holds, k.is_set))

-- A tick at or after the deadline ends the back-off.
pub tick-ends_backoff :
    (now : ℕ) (inputs : Inputs) (l : Lock) (s : Engine)
    → l.backoff_until_ms ≤ now
    → (tick now inputs l s).0.backoff_active ≡ false
unfolding tick run_timers advance enter_locked enter_unlocked enter_disabled
tick-ends_backoff now inputs l s over = ground arith

-- The clock of the deadline wraps and its comparison does not: a back-off whose deadline passes
-- 2 ^ 32 milliseconds is over at the first tick, at the very moment of the wrong code.
pub backoff-lost :
    (l : Lock) (now : ℕ)
    → now < u32_mod
    → let wrong = count_wrong l now in
      0 < backoff_duration_ms wrong.consecutive_wrong
      → u32_mod ≤ now + backoff_duration_ms wrong.consecutive_wrong
      → (run_timers now wrong).backoff_active ≡ false
unfolding count_wrong run_timers backoff_duration_ms
backoff-lost l now small starts wraps = ground arith
