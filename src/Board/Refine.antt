-- ===== src/Board/Refine.antt =====
-- A turn of `app_task` (firmware/main/main.c) as a run of the machine of Lock/Machine.
use moto_ctrl.Base.{
  ℕ, zero, suc, ◌≡◌, sym, Bool, not, ◌&&◌, Option, none, some, List, [], ◌∷◌, arith, subst,
  if_cases, if◌then◌else◌,
}
use moto_ctrl.Crypto.{Nacl}
use moto_ctrl.Output.Types.{Engine}
use moto_ctrl.Output.Clock.{set_engine_running, set_lv_cutoff}
use moto_ctrl.Output.Clock as Clock
use moto_ctrl.Output.Trace.{Op, pass_time, engine, cutoff}
use moto_ctrl.Output.Trace as Trace
use moto_ctrl.Lock.Types.{LockConfig, Lock, Inputs}
use moto_ctrl.Lock.Settings as Settings
use moto_ctrl.Lock.Machine.{time, press, System, step}
use moto_ctrl.Lock.Cheatcode.{cheatcode_press}
use moto_ctrl.Lock.Clock as LockClock
use moto_ctrl.Lock.Invariant.{Sound}
use moto_ctrl.Lock.Soundness.{Sound-run, Sound-init}
use moto_ctrl.Input.Types.{InputEvent, ActionList}
use moto_ctrl.Input.Types as Input
use moto_ctrl.Input.Poll.{poll}
use moto_ctrl.Input.Queue.{pop_event}
use moto_ctrl.Diag.Types.{Floats, Readings}
use moto_ctrl.Diag.Tick as DiagTick
use moto_ctrl.Board.Bindings.{momentary_tick, dispatch_action_list, actions_for_press}
use moto_ctrl.Board.Turn.{
  Board, Moment, level_of, follow_brake, is_short, diagnose, run_lock, feed_cheatcode, handle_event,
  drain, police, turn,
}
use moto_ctrl.Board.Drives.{
  IsRun, no_events, one_event, events_then, Drives, op-Drives, dispatch_action_list-Drives,
  momentary_tick-Drives, follow_brake-Drives,
}

mirrors-Drives :
    (nacl : Nacl) (lock : Lock) (from : Engine) (running cut : Bool)
    → Drives nacl lock from (set_lv_cutoff cut (set_engine_running running from))
unfolding Trace.step
mirrors-Drives nacl lock from running cut =
    op-Drives nacl lock from (cutoff cut) (set_engine_running running from) tt
      (op-Drives nacl lock from (engine running) from tt (no_events nacl (lock, from)))

module _ {F : Type 0} where
  abbrev pub system : Board F → System
  system b = (b.lock, b.output)

  -- What is logged moves neither.
  system-diagnose :
      (fl : Floats F) (readings : Readings) (now : ℕ) (b : Board F)
      → system (diagnose fl readings now b)
        ≡ (b.lock, (DiagTick.tick fl readings b.output now b.diag).1)
  unfolding diagnose
  system-diagnose fl readings now b = ground arith

  switch_of : Board F → Inputs
  switch_of b = record {
    ignition_switch_level = level_of b.input b.lock.config.ignition_switch_input;
    engine_running = b.output.engine_running;
  }

  system-run_lock :
      (now : ℕ) (b : Board F)
      → system (run_lock now b) ≡ LockClock.tick now (switch_of b) b.lock b.output
  unfolding run_lock switch_of
  system-run_lock now b = ground arith

  system-feed_cheatcode :
      (nacl : Nacl) (now button : ℕ) (b : Board F)
      → system (feed_cheatcode nacl now button b) ≡ (
        (cheatcode_press nacl b.lock b.output now button).1,
        (cheatcode_press nacl b.lock b.output now button).2,
      )
  unfolding feed_cheatcode
  system-feed_cheatcode nacl now button b = ground arith

module _ {F : Type 0} (nacl : Nacl) where
  -- The parts of the turn.
  abbrev Moves : Board F → Board F → Type 0
  Moves b b' = IsRun nacl (system b) (system b')

  Moves-append : (a b c : Board F) → Moves a b → Moves b c → Moves a c
  Moves-append a b c = events_then nacl (system a) (system b) (system c)

  by_system : (b b' : Board F) (s : System) → system b' ≡ s → IsRun nacl (system b) s → Moves b b'
  by_system b b' s e h = subst (λ (t : System). IsRun nacl (system b) t) (sym e) h

  module _ (b : Board F) where
    diagnose-Moves :
        (fl : Floats F) (readings : Readings) (now : ℕ) → Moves b (diagnose fl readings now b)
    diagnose-Moves fl readings now =
        by_system b (diagnose fl readings now b) _ (system-diagnose fl readings now b)
          (unfold DiagTick.tick in mirrors-Drives nacl b.lock b.output _ _)

    run_lock-Moves : (now : ℕ) → Moves b (run_lock now b)
    run_lock-Moves now =
        by_system b (run_lock now b) _ (system-run_lock now b)
          (unfold step in one_event nacl (time now (switch_of b)) (system b) tt)

    feed_cheatcode-Moves : (now button : ℕ) → Moves b (feed_cheatcode nacl now button b)
    feed_cheatcode-Moves now button =
        by_system b (feed_cheatcode nacl now button b) _ (system-feed_cheatcode nacl now button b)
          (unfold step in one_event nacl (press now button) (system b) tt)

    dispatched-Moves :
        (m : Moment) (list : ActionList)
        → Moves b (record b { output = dispatch_action_list m.outputs list m.now b.output })
    dispatched-Moves m list =
        dispatch_action_list-Drives nacl b.lock b.output m.outputs list m.now b.output
          (no_events nacl (system b))

  handle_event-Moves :
      (b : Board F) (m : Moment) (evt : InputEvent) → Moves b (handle_event nacl m evt b)
  unfolding handle_event
  handle_event-Moves b m (Input.press button type suppressed) =
      let fed = if is_short type then feed_cheatcode nacl m.now button b else b in
      let moved : Moves b fed =
        if_cases (Moves b) (is_short type) (feed_cheatcode-Moves b m.now button)
          (no_events nacl (system b)) in
      let acted = record fed {
        output =
            dispatch_action_list m.outputs (actions_for_press m.inputs button type) m.now
              fed.output;
      } in
      let done = dispatched-Moves fed m (actions_for_press m.inputs button type) in
      if_cases (Moves b) (not suppressed && not m.suppressed) (Moves-append b fed acted moved done)
        moved
  handle_event-Moves b m (Input.combo i actions) = dispatched-Moves b m actions

  taken-Moves :
      (fuel : ℕ) (m : Moment) (b : Board F)
      → ((b' : Board F) → Moves b' (drain fuel nacl m b'))
      → (next : Option InputEvent)
      → Moves b (elim next [
        | none ↦ b
        | some evt ↦
            drain fuel nacl m (handle_event nacl m evt (record b { input = (pop_event b.input).0 }))
      ])
  taken-Moves fuel m b rest none = no_events nacl (system b)
  taken-Moves fuel m b rest (some evt) =
      let popped = record b { input = (pop_event b.input).0 } in
      Moves-append popped (handle_event nacl m evt popped)
        (drain fuel nacl m (handle_event nacl m evt popped)) (handle_event-Moves popped m evt)
        (rest (handle_event nacl m evt popped))

  drain-Moves : (fuel : ℕ) (m : Moment) (b : Board F) → Moves b (drain fuel nacl m b)
  unfolding drain
  drain-Moves zero m b = no_events nacl (system b)
  drain-Moves (suc fuel) m b = taken-Moves fuel m b (drain-Moves fuel m) (pop_event b.input).1

  turn-Moves : (fl : Floats F) (m : Moment) (b : Board F) → Moves b (turn fl nacl m b)
  unfolding turn police
  turn-Moves fl m b =
      let input' = poll b.input m.now m.raw in
      let ticked =
        op-Drives nacl b.lock b.output (pass_time m.now) b.output tt (no_events nacl (system b)) in
      let braked =
        follow_brake-Drives nacl b.lock b.output m.outputs input' (Clock.tick m.now b.output)
          (unfold Trace.step in ticked) in
      let held =
        momentary_tick-Drives nacl b.lock b.output m.outputs m.inputs input' m.suppressed _
          braked in
      let driven = record b {
        input = input';
        output =
            momentary_tick m.outputs m.inputs input' m.suppressed
              (follow_brake m.outputs input' (Clock.tick m.now b.output));
      } in
      let sensed = diagnose fl m.readings m.now driven in
      let locked = run_lock m.now sensed in
      Moves-append b driven (drain 16 nacl m locked) held (
        Moves-append driven sensed (drain 16 nacl m locked)
          (diagnose-Moves driven fl m.readings m.now)
          (Moves-append sensed locked (drain 16 nacl m locked) (run_lock-Moves sensed m.now)
            (drain-Moves 16 m locked)))

  -- Many turns.
  unfoldable pub turns : Floats F → List Moment → Board F → Board F
  turns fl [] b = b
  turns fl (m ∷ ms) b = turns fl ms (turn fl nacl m b)

  turns_from-Sound :
      (fl : Floats F) (ms : List Moment) (b : Board F)
      → Sound b.lock b.output
      → Sound (turns fl ms b).lock (turns fl ms b).output
  unfolding turns
  turns_from-Sound fl [] b h = h
  turns_from-Sound fl (m ∷ ms) b h =
      let (es, own, e) = turn-Moves fl m b in
      turns_from-Sound fl ms (turn fl nacl m b)
        (subst (λ (s : System). Sound s.0 s.1) (sym e) (Sound-run nacl es b.lock b.output own h))

  -- From boot on, whatever the task of the board reads in its turns, the invariant of the lock holds
  -- between the lock and the outputs: the outputs are inhibited exactly while the bike is locked, the
  -- persisted flag says whether it is, the lock is disabled exactly while the immobilizer is, a bike
  -- that is not locked has no wrong codes, back-off or entry pending, and no entry has more than ten
  -- buttons.
  pub turns-Sound :
      (fl : Floats F) (ms : List Moment) (config : LockConfig) (flag : Bool) (output : Engine)
      → (b : Board F) → system b ≡ Settings.init config flag output
      → Sound (turns fl ms b).lock (turns fl ms b).output
  turns-Sound fl ms config flag output b booted =
      turns_from-Sound fl ms b
        (subst (λ (s : System). Sound s.0 s.1) (sym booted) (Sound-init config flag output))
