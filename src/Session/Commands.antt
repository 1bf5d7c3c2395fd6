-- ===== src/Session/Commands.antt =====
-- The output and ownership commands of `handle_command`
-- (firmware/components/core/mc_session.c), for an authenticated session.
use moto_ctrl.Base.{ℕ, Bool, true, false, not, ◌&&◌, none, some, List, [], ◌∷◌, ◌==◌, if◌then◌else◌}
use moto_ctrl.Output.Types.{
  ok, bad_channel, starter_remote_blocked, starter_engine_running, starter_interlock,
  immobilized_refusal, remote, Engine,
}
use moto_ctrl.Output.Types as Out
use moto_ctrl.Output.Command.{set}
use moto_ctrl.Output.Hazards.{has_members, hazard_press}
use moto_ctrl.Lock.Settings.{transfer_ownership}
use moto_ctrl.Keystore.Slots.{wipe}
use moto_ctrl.EventLog.Ring.{clear}
use moto_ctrl.Session.Types.{
  Session, App, Reply, Frame, command_line, persist_config, persist_keystore, persist_lock,
  device_name_changed, log_event, send_result2, hook, answer,
}
use moto_ctrl.Session.Result

-- `send_result2(send, io, MC_CH_COMMAND, MC_OP_COMMAND_RESULT, op, result)`
abbrev pub command_result : ℕ → ℕ → List Frame
command_result op result = send_result2 command_line 0x81 op result

-- The `switch` of MC_OP_SET_OUTPUT.
unfoldable pub set_result : Out.Result → ℕ
set_result ok = Result.ok
set_result bad_channel = Result.bad_request
set_result _ = Result.rejected

abbrev pub was_set : Out.Result → Bool
was_set ok = true
was_set _ = false

module _ {S F : Type 0} where
  -- MC_OP_SET_OUTPUT
  unfoldable pub set_output : Session → App S F → List ℕ → Reply S F
  unfolding set_result
  set_output s app (channel ∷ on ∷ body) =
      let (r, output') = set app.output channel (not (on == 0)) remote in
      answer s
        (hook (was_set r && app.hooks.has_persist_config) persist_config
          (record app { output = output' }))
        (command_result 0x01 (set_result r))
  set_output s app _ = answer s app (command_result 0x01 Result.bad_request)

  -- MC_OP_INPUT_LEARN
  unfoldable pub input_learn : Session → App S F → List ℕ → Reply S F
  input_learn s app [] = answer s app (command_result 0x12 Result.bad_request)
  input_learn s app (enable ∷ body) =
      let on = not (enable == 0) in
      answer
        (record s {
          input_learn = on;
          input_learn_suppress_actions =
              on && elim body [ [] ↦ false | suppress ∷ rest ↦ not (suppress == 0) ];
        })
        app (command_result 0x12 Result.ok)

  -- MC_OP_HAZARD_PRESS
  unfoldable pub press_hazards : Session → App S F → Reply S F
  press_hazards s app =
      if not (has_members app.output.config)
      then answer s app (command_result 0x10 Result.rejected)
      else answer s
          (hook app.hooks.has_persist_config persist_config
            (record app { output = hazard_press app.output.last_tick_ms app.output }))
          (command_result 0x10 Result.ok)

  -- The name goes with the old owner.
  unfoldable pub reset_name : App S F → App S F
  reset_name app = elim app.config.device_name [
    | [] ↦ app
    | b ∷ name ↦ hook app.hooks.has_on_device_name_changed device_name_changed (
        hook app.hooks.has_persist_config persist_config
          (record app { config = record app.config { device_name = [] } }))
  ]

  -- The lock of the old owner.
  unfoldable pub reset_lock : App S F → App S F
  reset_lock app = elim app.lock [
    | none ↦ app
    | some lock ↦
        let (lock', output') = transfer_ownership lock app.output in
        hook app.hooks.has_persist_lock persist_lock
          (record app { lock = some lock'; output = output' })
  ]

  -- The keys of the old owner.
  unfoldable pub wipe_keys : App S F → App S F
  unfolding wipe
  wipe_keys app = record app { keystore = wipe app.keystore }

  -- The log of the old owner, after the keys are stored.
  unfoldable pub settle : App S F → App S F
  settle app =
      let unowned = hook app.hooks.has_persist_keystore persist_keystore app in
      hook unowned.hooks.has_log_event (log_event 5 0 0) (record unowned {
        event_log = elim unowned.event_log [ none ↦ none | some log ↦ some (clear log) ];
      })

  -- MC_OP_TRANSFER_OWNERSHIP
  unfoldable pub transfer : Session → App S F → Reply S F
  transfer s app =
      answer s (settle (reset_lock (wipe_keys (reset_name app)))) (command_result 0x09 Result.ok)
