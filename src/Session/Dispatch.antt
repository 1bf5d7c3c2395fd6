-- ===== src/Session/Dispatch.antt =====
-- `handle_command` and `mc_session_handle` of firmware/components/core/mc_session.c.
use moto_ctrl.Base.{ℕ, not, List, [], ◌∷◌, ◌==◌, if◌then◌else◌}
use moto_ctrl.Session.Types.{
  Line, status_line, auth_line, command_line, config_line, ota_line, other_line, is_authed, Session,
  App, Reply, World, answer,
}
use moto_ctrl.Session.Result
use moto_ctrl.Session.Status.{handle_status}
use moto_ctrl.Session.Auth.{handle_auth}
use moto_ctrl.Session.Commands.{command_result, set_output, input_learn, press_hazards, transfer}
use moto_ctrl.Session.Lock.{
  lock_bike, unlock_bike, lock_get_config, lock_set_config, cheatcode_set, cheatcode_clear,
  cheatcode_test,
}
use moto_ctrl.Session.Diag.{
  diag_get, diag_get_config, diag_set_config, diag_get_calib, diag_set_calib, diag_learn,
}
use moto_ctrl.Session.Events.{event_log_get}
use moto_ctrl.Session.Config.{handle_config}
use moto_ctrl.Session.Update.{handle_ota}

-- The opcodes of the COMMAND channel.
pub data Command : Type 0 where
  set_output_op lock_op unlock_op lock_get_config_op lock_set_config_op : Command
  cheatcode_set_op cheatcode_clear_op cheatcode_test_op transfer_op : Command
  diag_get_op diag_get_config_op diag_set_config_op diag_get_calib_op diag_set_calib_op : Command
  diag_learn_op hazard_press_op event_log_get_op input_learn_op unknown_op : Command

-- The `case` of an opcode.
unfoldable pub command_of : ℕ → Command
command_of op =
    if op == 0x01
    then set_output_op
    else if op == 0x02
    then lock_op
    else if op == 0x03
    then unlock_op
    else if op == 0x04
    then lock_get_config_op
    else if op == 0x05
    then lock_set_config_op
    else if op == 0x06
    then cheatcode_set_op
    else if op == 0x07
    then cheatcode_clear_op
    else if op == 0x08
    then cheatcode_test_op
    else if op == 0x09
    then transfer_op
    else if op == 0x0a
    then diag_get_op
    else if op == 0x0b
    then diag_get_config_op
    else if op == 0x0c
    then diag_set_config_op
    else if op == 0x0d
    then diag_get_calib_op
    else if op == 0x0e
    then diag_set_calib_op
    else if op == 0x0f
    then diag_learn_op
    else if op == 0x10
    then hazard_press_op
    else if op == 0x11
    then event_log_get_op
    else if op == 0x12
    then input_learn_op
    else unknown_op

module _ {S F : Type 0} (w : World F) where
  -- The `switch` of `handle_command`.
  unfoldable pub run_command : Command → ℕ → Session → App S F → List ℕ → Reply S F
  run_command set_output_op op s app body = set_output s app body
  run_command lock_op op s app body = lock_bike s app
  run_command unlock_op op s app body = unlock_bike s app
  run_command lock_get_config_op op s app body = lock_get_config s app
  run_command lock_set_config_op op s app body = lock_set_config s app body
  run_command cheatcode_set_op op s app body = cheatcode_set w s app body
  run_command cheatcode_clear_op op s app body = cheatcode_clear s app
  run_command cheatcode_test_op op s app body = cheatcode_test w s app body
  run_command transfer_op op s app body = transfer s app
  run_command diag_get_op op s app body = diag_get s app
  run_command diag_get_config_op op s app body = diag_get_config s app
  run_command diag_set_config_op op s app body = diag_set_config s app body
  run_command diag_get_calib_op op s app body = diag_get_calib w s app
  run_command diag_set_calib_op op s app body = diag_set_calib w s app body
  run_command diag_learn_op op s app body = diag_learn w s app body
  run_command hazard_press_op op s app body = press_hazards s app
  run_command event_log_get_op op s app body = event_log_get s app body
  run_command input_learn_op op s app body = input_learn s app body
  run_command unknown_op op s app body = answer s app (command_result op Result.bad_request)

  -- `handle_command`
  unfoldable pub handle_command : Session → App S F → List ℕ → Reply S F
  unfolding command_of
  handle_command s app [] = answer s app []
  handle_command s app (op ∷ body) =
      if not (is_authed s.state)
      then answer s app (command_result op Result.unauthenticated)
      else run_command (command_of op) op s app body

  -- `mc_session_handle`
  unfoldable pub handle : Session → App S F → Line → List ℕ → Reply S F
  handle s app status_line payload = handle_status s app payload
  handle s app auth_line payload = handle_auth w s app payload
  handle s app command_line payload = handle_command s app payload
  handle s app config_line payload = handle_config w s app payload
  handle s app ota_line payload = handle_ota w s app payload
  handle s app other_line payload = answer s app []
