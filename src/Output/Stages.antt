-- ===== src/Output/Stages.antt =====
-- The parts of `mc_output_set`, cell by cell.
use moto_ctrl.Base.{
  ℕ, ◌<◌, ◌≡◌, pos, negsuc, Bool, false, not, ◌&&◌, Option, some, ltb, ◌==◌, if◌then◌else◌, add32,
  arith,
}
use moto_ctrl.Output.Types.{Channel, Engine, channel, output_count}
use moto_ctrl.Output.Drive.{with_commanded, set_commanded_on_raw}
use moto_ctrl.Output.Parts.{is_turn, opposite_of, same_bit, find_indicator_channel}
use moto_ctrl.Output.Command.{
  leave_hazards, cancel_opposite, cancel_partner, command_channel, ignition_edge,
}
use moto_ctrl.Output.Frames.{
  frame, still, Cell, cell, is_except, restored, lit, darkened, still-end_hazard_mode,
  cell-end_hazard_mode, still-apply_ignition_on, cell-apply_ignition_on, still-apply_ignition_off,
  cell-apply_ignition_off,
}

-- A channel without its state: what the rider configured.
abbrev pub roles : Channel → Channel
roles c = with_commanded c false

abbrev pub is_partner : Channel → ℕ → Bool
is_partner c j = elim c.alternate_channel [ pos p ↦ p == j | negsuc _ ↦ false ]

abbrev pub opposite : Engine → ℕ → Option ℕ
opposite eng ch = find_indicator_channel eng.config (opposite_of (channel eng ch).indicator)

abbrev pub put_out : Cell → Cell
put_out (c, d) = if c.commanded_on then (with_commanded c false, 0) else (c, d)

module _ (ch : ℕ) (on : Bool) (s : Engine) (j : ℕ) (lt : j < output_count) where
  pub cell-leave_hazards : cell j (leave_hazards ch s) ≡ (
      if (channel s ch).hazard_member && s.hazard_active
      then restored (some ch) s.last_tick_ms (still s) j (cell j s)
      else cell j s)
  unfolding leave_hazards
  cell-leave_hazards = ground (arith, cell-end_hazard_mode (some ch) s.last_tick_ms s j lt)

  pub cell-cancel_opposite : cell j (cancel_opposite ch on s) ≡ (
      if is_turn (channel s ch) && on && is_except (opposite s ch) j && not (j == ch)
      then put_out (cell j s)
      else cell j s)
  unfolding cancel_opposite set_commanded_on_raw
  cell-cancel_opposite = ground arith

  pub cell-cancel_partner : cell j (cancel_partner ch on s) ≡ (
      if on && is_partner (channel s ch) j && not (j == ch)
      then (with_commanded (channel s j) false, s.turn_auto_cancel_deadline_ms j)
      else cell j s)
  unfolding cancel_partner set_commanded_on_raw
  cell-cancel_partner = ground arith

  pub cell-command_channel : cell j (command_channel ch on s) ≡ (
      if j == ch
      then (
        with_commanded (channel s j) on,
        if is_turn (channel s ch)
            then (if on && ltb 0 s.config.turn_auto_cancel_ms
                then add32 s.last_tick_ms s.config.turn_auto_cancel_ms
                else 0)
            else s.turn_auto_cancel_deadline_ms j,
      )
      else cell j s)
  unfolding command_channel set_commanded_on_raw
  cell-command_channel = ground arith

  pub cell-ignition_edge :
      (was_on : Bool)
      → cell j (ignition_edge ch was_on on s) ≡ (
          if (channel s ch).is_ignition && not (same_bit was_on on)
          then (if on then lit (cell j s) else darkened (cell j s))
          else cell j s)
  unfolding ignition_edge
  cell-ignition_edge was_on = ground (
    arith,
    cell-apply_ignition_on s.last_tick_ms s j lt,
    cell-apply_ignition_off s.last_tick_ms s j lt,
  )

module _ (ch : ℕ) (on : Bool) (s : Engine) where
  pub still-leave_hazards :
      still (leave_hazards ch s)
      ≡ (frame s, s.hazard_active && not (channel s ch).hazard_member, s.hazard_saved_mask)
  unfolding leave_hazards
  still-leave_hazards = ground (arith, still-end_hazard_mode (some ch) s.last_tick_ms s)

  pub still-cancel_opposite : still (cancel_opposite ch on s) ≡ still s
  unfolding cancel_opposite set_commanded_on_raw
  still-cancel_opposite = ground arith

  pub still-cancel_partner : still (cancel_partner ch on s) ≡ still s
  unfolding cancel_partner set_commanded_on_raw
  still-cancel_partner = ground arith

  pub still-command_channel : still (command_channel ch on s) ≡ still s
  unfolding command_channel set_commanded_on_raw
  still-command_channel = ground arith

  pub still-ignition_edge :
      (was_on : Bool)
      → still (ignition_edge ch was_on on s) ≡ (
        frame s,
        (if (channel s ch).is_ignition && not (same_bit was_on on) && not on
            then false
            else s.hazard_active),
        s.hazard_saved_mask,
      )
  unfolding ignition_edge
  still-ignition_edge was_on =
      ground
        (arith, still-apply_ignition_on s.last_tick_ms s, still-apply_ignition_off s.last_tick_ms s)
