-- ===== src/Lock/Invariant.antt =====
-- The lock and the inhibit of the outputs never part: what holds between two events.
use moto_ctrl.Base.{
  ℕ, ◌≤◌, ◌≡◌, refl, ap, ◌∙◌, Bool, true, false, not, ◌&&◌, Option, none, some, [], length, arith,
  sym, Bool-cases, inl, inr, elapsed_at_least,
}
use moto_ctrl.Output.Types.{local, Engine}
use moto_ctrl.Output.Parts.{find_ignition_channel}
use moto_ctrl.Output.Command.{set}
use moto_ctrl.Output.Clock.{set_interlock_engaged, set_immobilized}
use moto_ctrl.Output.Frames.{Frame, Still}
use moto_ctrl.Output.Trace.{
  Op, command, alternate, press_hazards, pass_time, engine, interlock, immobilize, cutoff, restore,
  immobilized-set_engine_running, still-tick, still-set_lv_cutoff, still-restore_from_config,
}
use moto_ctrl.Output.Trace
use moto_ctrl.Output.Immobilized.{frame-set, frame-alternate_press, frame-hazard_press}
use moto_ctrl.Lock.Types.{
  LockState, disabled, unlocked, parked, locked, Lock, Inputs, has_ignition_switch,
}
use moto_ctrl.Lock.Moves.{
  ignition_is_live, is_locked, turn_key, enter_locked, enter_unlocked, enter_disabled,
}
use moto_ctrl.Lock.Clock.{mirror_switch, run_timers, advance, tick}
use moto_ctrl.Lock.Machine.{Event, drive}

abbrev pub is_disabled : LockState → Bool
is_disabled disabled = true
is_disabled _ = false

-- What holds between two events. `sync` is that the inhibit of the outputs is the lock's own state.
pub record Sound (lock : Lock) (output : Engine) : Type 0 where
  pub sync : is_locked lock.state ≡ output.immobilized
  pub flag : lock.locked_flag ≡ is_locked lock.state
  pub enabled : is_disabled lock.state ≡ not lock.config.immobilizer_enabled
  pub calm :
      is_locked lock.state ≡ false
      → (lock.consecutive_wrong ≡ 0) × (lock.backoff_active ≡ false) × (lock.entry ≡ [])
  pub short : length lock.entry ≤ 10

-- The lock is the only caller of `mc_output_set_immobilized`.
abbrev pub IsOwn : Event → Type 0
IsOwn (drive (immobilize on)) = ⊥
IsOwn _ = Unit

immobilized-set :
    (s : Engine) (ch : ℕ) (on : Bool) → (set s ch on local).1.immobilized ≡ s.immobilized
immobilized-set s ch on = ap (λ (f : Frame). f.immobilized) (frame-set s ch on local)

pub immobilized-turn_key : (s : Engine) → (turn_key s).immobilized ≡ s.immobilized
unfolding turn_key
immobilized-turn_key s = go (find_ignition_channel s.config)
  where
    go :
        (o : Option ℕ)
        → (elim o as (λ _. Engine) [ none ↦ s | some ign ↦ (set s ign true local).1 ]).immobilized
          ≡ s.immobilized
    go none = refl
    go (some ign) = immobilized-set s ign true

pub immobilized-mirror_switch :
    (l : Lock) (prev level : Bool) (s : Engine)
    → (mirror_switch l prev level s).immobilized ≡ s.immobilized
unfolding mirror_switch
immobilized-mirror_switch l prev level s = go (find_ignition_channel s.config) refl
  where
    go :
        (o : Option ℕ)
        → find_ignition_channel s.config ≡ o
        → (mirror_switch l prev level s).immobilized ≡ s.immobilized
    go none e = ground arith
    go (some ign) e = ground (arith, immobilized-set s ign level)

pub immobilized-step :
    (op : Op) (s : Engine) → IsOwn (drive op) → (Trace.step op s).immobilized ≡ s.immobilized
unfolding Trace.step set_interlock_engaged
immobilized-step (command ch on src) s _ = ap (λ (f : Frame). f.immobilized) (frame-set s ch on src)
immobilized-step (alternate ch src) s _ =
    ap (λ (f : Frame). f.immobilized) (frame-alternate_press s ch src)
immobilized-step (press_hazards now) s _ =
    ap (λ (f : Frame). f.immobilized) (frame-hazard_press now s)
immobilized-step (pass_time now) s _ = ap (λ (x : Still). x.0.immobilized) (still-tick now s)
immobilized-step (engine running) s _ = immobilized-set_engine_running running s
immobilized-step (interlock engaged) s _ = refl
immobilized-step (immobilize on) s h = absurd h
immobilized-step (cutoff on) s _ = ap (λ (x : Still). x.0.immobilized) (still-set_lv_cutoff on s)
immobilized-step restore s _ = ap (λ (x : Still). x.0.immobilized) (still-restore_from_config s)

pub Sound-enter_locked :
    (l : Lock) (s : Engine)
    → l.config.immobilizer_enabled ≡ true
    → length l.entry ≤ 10
    → Sound (enter_locked l s).0 (enter_locked l s).1
unfolding enter_locked
Sound-enter_locked l s e short = record {
  sync = refl;
  flag = refl;
  enabled = ground arith;
  calm = λ h. ground arith;
  short = short;
}

pub Sound-enter_unlocked :
    (l : Lock) (s : Engine)
    → l.config.immobilizer_enabled ≡ true
    → is_locked l.state ≡ s.immobilized
    → (is_locked l.state ≡ false
        → (l.consecutive_wrong ≡ 0) × (l.backoff_active ≡ false) × (l.entry ≡ []))
    → Sound (enter_unlocked l s).0 (enter_unlocked l s).1
unfolding enter_unlocked set_immobilized
Sound-enter_unlocked l s e sync calm = record {
  sync = ground (arith, immobilized-turn_key (set_immobilized false s));
  flag = ground arith;
  enabled = ground arith;
  calm = λ h. ground arith;
  short = ground arith;
}

pub Sound-enter_disabled :
    (l : Lock) (s : Engine)
    → l.config.immobilizer_enabled ≡ false
    → is_locked l.state ≡ s.immobilized
    → (is_locked l.state ≡ false
        → (l.consecutive_wrong ≡ 0) × (l.backoff_active ≡ false) × (l.entry ≡ []))
    → Sound (enter_disabled l s).0 (enter_disabled l s).1
unfolding enter_disabled set_immobilized
Sound-enter_disabled l s e sync calm = record {
  sync = ground arith;
  flag = ground arith;
  enabled = ground arith;
  calm = λ h. ground arith;
  short = ground arith;
}

Sound-advance :
    (st : LockState) (guard level : Bool) (now : ℕ) (l : Lock) (s : Engine)
    → l.state ≡ st
    → l.config.immobilizer_enabled ≡ true
    → Sound l s
    → Sound (advance st guard level now l s).0 (advance st guard level now l s).1
unfolding advance
Sound-advance disabled guard level now l s e on h = absurd (ground (arith, h.enabled))
Sound-advance unlocked false level now l s e on h = h
Sound-advance unlocked true level now l s e on h = record {
  sync = ground (arith, h.sync);
  flag = ground (arith, h.flag);
  enabled = ground (arith, h.enabled);
  calm = λ _. h.calm (ground arith);
  short = h.short;
}
Sound-advance parked false level now l s e on h = record {
  sync = ground (arith, h.sync);
  flag = ground (arith, h.flag);
  enabled = ground (arith, h.enabled);
  calm = λ _. h.calm (ground arith);
  short = h.short;
}
Sound-advance parked true level now l s e on h =
    elim (Bool-cases (elapsed_at_least now l.parked_since_ms l.config.auto_lock_grace_ms)) [
      | inl d ↦ rw d (Sound-enter_locked l s on h.short)
      | inr d ↦ rw d h
    ]
Sound-advance locked guard level now l s e on h =
    elim (Bool-cases (level && has_ignition_switch l.config.methods_mask)) [
      | inl d ↦ rw d (Sound-enter_unlocked l s on h.sync h.calm)
      | inr d ↦ rw d h
    ]

Sound-run_timers : (now : ℕ) (l : Lock) (s : Engine) → Sound l s → Sound (run_timers now l) s
unfolding run_timers
Sound-run_timers now l s h = record {
  sync = h.sync;
  flag = h.flag;
  enabled = h.enabled;
  calm = λ e. ground (arith, h.calm e);
  short = ground (arith, h.short);
}

-- The lock with the level of the switch noted, after its timers.
abbrev pub seen : ℕ → Bool → Lock → Lock
seen now level l = record (run_timers now l) { prev_ignition_switch_level = level }

abbrev pub mirrored : ℕ → Bool → Lock → Engine → Engine
mirrored now level l s = mirror_switch (run_timers now l) l.prev_ignition_switch_level level s

abbrev pub is_guarded : Inputs → Engine → Bool
is_guarded inputs s = not inputs.engine_running && not (ignition_is_live s)

pub tick-on :
    (now : ℕ) (inputs : Inputs) (l : Lock) (s : Engine)
    → l.config.immobilizer_enabled ≡ true
    → let level = inputs.ignition_switch_level in
      tick now inputs l s
      ≡ advance l.state
          (is_guarded inputs (mirrored now level l s))
          level
          now
          (seen now level l)
          (mirrored now level l s)
unfolding tick run_timers
tick-on now inputs l s e = rw e refl

pub tick-off :
    (now : ℕ) (inputs : Inputs) (l : Lock) (s : Engine)
    → l.config.immobilizer_enabled ≡ false
    → Sound l s
    → tick now inputs l s ≡ (run_timers now l, s)
unfolding tick run_timers
tick-off now inputs l s e h = ground (arith, h.enabled)

pub Sound-tick :
    (now : ℕ) (inputs : Inputs) (l : Lock) (s : Engine)
    → Sound l s
    → Sound (tick now inputs l s).0 (tick now inputs l s).1
unfolding run_timers
Sound-tick now inputs l s h = elim (Bool-cases l.config.immobilizer_enabled) [
  | inl e ↦
      let level = inputs.ignition_switch_level in
      let t = Sound-run_timers now l s h in
      let seen-Sound : Sound (seen now level l) (mirrored now level l s) = record {
        sync =
            t.sync
            ∙ sym
                (immobilized-mirror_switch (run_timers now l) l.prev_ignition_switch_level level s);
        flag = t.flag;
        enabled = t.enabled;
        calm = t.calm;
        short = t.short;
      } in
      rw (tick-on now inputs l s e) (
        Sound-advance l.state (is_guarded inputs (mirrored now level l s)) level now
          (seen now level l) (mirrored now level l s) refl e seen-Sound)
  | inr e ↦ rw (tick-off now inputs l s e h) (Sound-run_timers now l s h)
]
