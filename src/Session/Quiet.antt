-- ===== src/Session/Quiet.antt =====
-- Only the AUTH channel moves the authentication of a session
-- (firmware/components/core/mc_session.c).
use moto_ctrl.Base.{◌⊎◌, inl, inr, ℕ, ◌≡◌, refl, ℤ, List, [], ◌∷◌, arith, if_cases}
use moto_ctrl.Session.Types.{
  Line, status_line, auth_line, command_line, config_line, ota_line, other_line, SessionState,
  Session, App, Reply, World,
}
use moto_ctrl.Session.Status.{handle_status}
use moto_ctrl.Session.Commands.{set_output, input_learn, press_hazards, transfer}
use moto_ctrl.Session.Lock.{
  lock_bike, unlock_bike, lock_get_config, lock_apply, lock_set_config, cheatcode_set,
  cheatcode_clear, cheatcode_test,
}
use moto_ctrl.Session.Diag.{
  diag_get, diag_get_config, diag_set_config, diag_get_calib, diag_set_calib, learn_result,
  diag_learn,
}
use moto_ctrl.Session.Events.{send_log, event_log_get}
use moto_ctrl.Session.Config.{commit, write_begin, write_chunk, write_commit, handle_config}
use moto_ctrl.Session.Update.{ota_begin, ota_chunk, ota_commit, ota_reboot, ota_command, handle_ota}
use moto_ctrl.Session.Dispatch.{
  Command, set_output_op, lock_op, unlock_op, lock_get_config_op, lock_set_config_op,
  cheatcode_set_op, cheatcode_clear_op, cheatcode_test_op, transfer_op, diag_get_op,
  diag_get_config_op, diag_set_config_op, diag_get_calib_op, diag_set_calib_op, diag_learn_op,
  hazard_press_op, event_log_get_op, input_learn_op, unknown_op, run_command, handle_command,
  handle,
}

-- The part of a session that says who is at the other end.
abbrev pub Standing : Type 0
Standing = SessionState × List ℕ × ℤ

abbrev pub standing : Session → Standing
standing s = (s.state, s.nonce, s.authed_slot)

module _ {S F : Type 0} (w : World F) (s : Session) (app : App S F) where
  abbrev Quiet : Reply S F → Type 0
  Quiet r = standing r.session ≡ standing s

  run_command-Quiet : (c : Command) (op : ℕ) (body : List ℕ) → Quiet (run_command w c op s app body)
  unfolding run_command set_output input_learn press_hazards transfer lock_bike unlock_bike
      lock_get_config lock_apply lock_set_config cheatcode_set cheatcode_clear cheatcode_test
      diag_get diag_get_config diag_set_config diag_get_calib diag_set_calib learn_result diag_learn
      send_log event_log_get
  run_command-Quiet set_output_op op [] = refl
  run_command-Quiet set_output_op op (a ∷ []) = refl
  run_command-Quiet set_output_op op (a ∷ b ∷ body) = refl
  run_command-Quiet lock_op op body = ground arith
  run_command-Quiet unlock_op op body = ground arith
  run_command-Quiet lock_get_config_op op body = ground arith
  run_command-Quiet lock_set_config_op op body = ground arith
  run_command-Quiet cheatcode_set_op op body = ground arith
  run_command-Quiet cheatcode_clear_op op body = ground arith
  run_command-Quiet cheatcode_test_op op body = ground arith
  run_command-Quiet transfer_op op body = refl
  run_command-Quiet diag_get_op op body = ground arith
  run_command-Quiet diag_get_config_op op body = ground arith
  run_command-Quiet diag_set_config_op op body = ground arith
  run_command-Quiet diag_get_calib_op op body = ground arith
  run_command-Quiet diag_set_calib_op op body = ground arith
  run_command-Quiet diag_learn_op op body = ground arith
  run_command-Quiet hazard_press_op op body = ground arith
  run_command-Quiet event_log_get_op op body = ground arith
  run_command-Quiet input_learn_op op [] = refl
  run_command-Quiet input_learn_op op (a ∷ body) = refl
  run_command-Quiet unknown_op op body = refl

  handle_command-Quiet : (payload : List ℕ) → Quiet (handle_command w s app payload)
  unfolding handle_command
  handle_command-Quiet [] = refl
  handle_command-Quiet (op ∷ body) = if_cases Quiet _ refl (run_command-Quiet _ op body)

  write_begin-Quiet : (body : List ℕ) → Quiet (write_begin s app body)
  unfolding write_begin
  write_begin-Quiet [] = refl
  write_begin-Quiet (a ∷ []) = refl
  write_begin-Quiet (a ∷ b ∷ body) = if_cases Quiet _ refl refl

  write_chunk-Quiet : (body : List ℕ) → Quiet (write_chunk s app body)
  unfolding write_chunk
  write_chunk-Quiet [] = refl
  write_chunk-Quiet (a ∷ []) = refl
  write_chunk-Quiet (a ∷ b ∷ body) = if_cases Quiet _ refl refl

  write_commit-Quiet : Quiet (write_commit w s app)
  unfolding write_commit commit
  write_commit-Quiet = ground arith

  handle_config-Quiet : (payload : List ℕ) → Quiet (handle_config w s app payload)
  unfolding handle_config
  handle_config-Quiet [] = refl
  handle_config-Quiet (op ∷ body) =
      ground (arith, write_begin-Quiet body, write_chunk-Quiet body, write_commit-Quiet)

  handle_ota-Quiet : (payload : List ℕ) → Quiet (handle_ota w s app payload)
  unfolding handle_ota ota_command ota_begin ota_chunk ota_commit ota_reboot
  handle_ota-Quiet [] = refl
  handle_ota-Quiet (op ∷ body) = ground arith

  handle_status-Quiet : (payload : List ℕ) → Quiet (handle_status s app payload)
  unfolding handle_status
  handle_status-Quiet [] = refl
  handle_status-Quiet (op ∷ body) = if_cases Quiet _ refl refl

  -- A frame on any other channel leaves the authentication of the session as it is.
  pub handle-Quiet :
      (line : Line) (payload : List ℕ) → (line ≡ auth_line) ⊎ Quiet (handle w s app line payload)
  unfolding handle
  handle-Quiet auth_line payload = inl refl
  handle-Quiet status_line payload = inr (handle_status-Quiet payload)
  handle-Quiet command_line payload = inr (handle_command-Quiet payload)
  handle-Quiet config_line payload = inr (handle_config-Quiet payload)
  handle-Quiet ota_line payload = inr (handle_ota-Quiet payload)
  handle-Quiet other_line payload = inr refl
