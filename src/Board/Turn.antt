-- ===== src/Board/Turn.antt =====
-- One turn of `app_task` (firmware/main/main.c), from the poll of the inputs to the power policy.
use moto_ctrl.Base.{
  ℕ, zero, suc, ℤ, pos, negsuc, Bool, true, false, not, ◌&&◌, none, some, List, ◌∷◌, ltb,
  if◌then◌else◌,
}
use moto_ctrl.Crypto.{Nacl}
use moto_ctrl.Output.Types.{local, Config, Engine}
use moto_ctrl.Output.Drive.{get_state, any_active}
use moto_ctrl.Output.Parts.{find_brake_channel, find_ignition_channel}
use moto_ctrl.Output.Command.{set}
use moto_ctrl.Output.Clock as Clock
use moto_ctrl.Lock.Types.{Lock, Inputs, Outcome, match, mismatch}
use moto_ctrl.Lock.Moves.{is_locked}
use moto_ctrl.Lock.Cheatcode.{cheatcode_press}
use moto_ctrl.Lock.Clock as LockClock
use moto_ctrl.Input.Types.{
  PressType, short_press, InputEvent, press, combo, InputConfig, InputEngine,
}
use moto_ctrl.Input.Queue.{pop_event}
use moto_ctrl.Input.Poll.{differs, poll, button_level, activity_pending}
use moto_ctrl.Diag.Types.{Floats, Readings, Diag}
use moto_ctrl.Diag.Tick as DiagTick
use moto_ctrl.Power.Policy.{Power, PowerInputs}
use moto_ctrl.Power.Policy as Policy
use moto_ctrl.Board.Bindings.{momentary_tick, dispatch_action_list, actions_for_press}

-- What `app_task` moves. `logged` is what went to the event log, the newest first.
pub record Board (F : Type 0) : Type 0 where
  pub output : Engine
  pub lock : Lock
  pub diag : Diag F
  pub input : InputEngine
  pub power : Power
  pub logged : List (ℕ × ℕ × ℕ)

-- What a turn gets from outside: the clock, the levels of the inputs, what the diagnostics read, the
-- two members of `s_config`, and what BLE and the other modules answer.
pub record Moment : Type 0 where
  pub now : ℕ
  pub raw : ℕ → Bool
  pub readings : Readings
  pub outputs : Config
  pub inputs : InputConfig
  pub suppressed : Bool
  pub connected : Bool
  pub ota_active : Bool
  pub reset_armed : Bool

-- The level of an input that may be unassigned.
abbrev pub level_of : InputEngine → ℤ → Bool
level_of input (negsuc _) = false
level_of input (pos i) = button_level input i

-- The brake switch passed through.
unfoldable pub follow_brake : Config → InputEngine → Engine → Engine
follow_brake outputs input eng = elim outputs.brake_switch_input [
  | negsuc _ ↦ eng
  | pos i ↦ elim (find_brake_channel outputs) [
    | none ↦ eng
    | some ch ↦
        let asserted = button_level input i in
        if differs asserted (get_state eng ch) then (set eng ch asserted local).1 else eng
  ]
]

abbrev pub is_short : PressType → Bool
is_short short_press = true
is_short _ = false

abbrev pub is_match : Outcome → Bool
is_match match = true
is_match _ = false

abbrev pub is_mismatch : Outcome → Bool
is_mismatch mismatch = true
is_mismatch _ = false

module _ {F : Type 0} where
  abbrev pub log_event : ℕ → ℕ → ℕ → Board F → Board F
  log_event type arg0 arg1 b = record b { logged = (type, arg0, arg1) ∷ b.logged }

  -- `mc_diag_tick`, and the entries into and out of the low-voltage cutoff.
  unfoldable pub diagnose : Floats F → Readings → ℕ → Board F → Board F
  diagnose fl readings now b =
      let (diag', output') = DiagTick.tick fl readings b.output now b.diag in
      let b' = record b { diag = diag'; output = output' } in
      if output'.lv_cutoff && not b.output.lv_cutoff
      then log_event 11 0 0 b'
      else if not output'.lv_cutoff && b.output.lv_cutoff
      then log_event 12 0 0 b'
      else b'

  -- `mc_lock_tick`, and what it locks and unlocks.
  unfoldable pub run_lock : ℕ → Board F → Board F
  run_lock now b =
      let inputs : Inputs = record {
        ignition_switch_level = level_of b.input b.lock.config.ignition_switch_input;
        engine_running = b.output.engine_running;
      } in
      let (lock', output') = LockClock.tick now inputs b.lock b.output in
      let b' = record b { lock = lock'; output = output' } in
      if is_locked lock'.state && not (is_locked b.lock.state)
      then log_event 1 0 0 b'
      else if is_locked b.lock.state && not (is_locked lock'.state)
      then log_event 2 3 0 b'
      else b'

  -- A short press feeds the cheat-code.
  unfoldable pub feed_cheatcode : Nacl → ℕ → ℕ → Board F → Board F
  feed_cheatcode nacl now button b =
      let (outcome, lock', output') = cheatcode_press nacl b.lock b.output now button in
      let b' = record b { lock = lock'; output = output' } in
      if is_match outcome
      then log_event 2 2 0 b'
      else if is_mismatch outcome && not b.lock.backoff_active && lock'.backoff_active
      then log_event 7 (if ltb 0xff lock'.consecutive_wrong then 0xff else lock'.consecutive_wrong)
          0 b'
      else b'

  -- One event of the queue. What goes to an app that learns the inputs is left out.
  unfoldable pub handle_event : Nacl → Moment → InputEvent → Board F → Board F
  handle_event nacl m (press button type suppressed) b =
      let fed = if is_short type then feed_cheatcode nacl m.now button b else b in
      if not suppressed && not m.suppressed
      then record fed {
        output =
            dispatch_action_list m.outputs (actions_for_press m.inputs button type) m.now
              fed.output;
      }
      else fed
  handle_event nacl m (combo i actions) b = record b {
    output = dispatch_action_list m.outputs actions m.now b.output;
  }

  -- `while (mc_input_pop_event(...))`, on fuel.
  unfoldable pub drain : ℕ → Nacl → Moment → Board F → Board F
  drain zero nacl m b = b
  drain (suc fuel) nacl m b = elim (pop_event b.input).1 [
    | none ↦ b
    | some evt ↦
        drain fuel nacl m (handle_event nacl m evt (record b { input = (pop_event b.input).0 }))
  ]

  -- `mc_power_tick` on what the turn left.
  unfoldable pub police : Moment → Board F → Board F
  police m b = record b {
    power =
        Policy.tick b.power
          (record {
            outputs_active = any_active b.output m.now;
            engine_running = b.output.engine_running;
            ignition_live = elim (find_ignition_channel b.output.config) [
              | none ↦ false
              | some ch ↦ get_state b.output ch
            ];
            ota_active = m.ota_active;
            session_connected = m.connected;
            input_pending = activity_pending b.input;
            factory_reset_armed = m.reset_armed;
          })
          m.now;
  }

  -- The turn: the outputs' clock, the brake and the momentary channels, the diagnostics, the lock, the
  -- events, the power policy. The queue holds no more than the sixteen events that `drain` may take.
  unfoldable pub turn : Floats F → Nacl → Moment → Board F → Board F
  turn fl nacl m b =
      let input' = poll b.input m.now m.raw in
      let ticked = Clock.tick m.now b.output in
      let output' =
        momentary_tick m.outputs m.inputs input' m.suppressed
          (follow_brake m.outputs input' ticked) in
      let sensed = diagnose fl m.readings m.now (record b { input = input'; output = output' }) in
      police m (drain 16 nacl m (run_lock m.now sensed))
