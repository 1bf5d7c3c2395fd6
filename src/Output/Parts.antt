-- ===== src/Output/Parts.antt =====
-- Parts of firmware/components/core/mc_output.c that several commands share: the searches for a
-- channel with a role, the initial engine and the guard of the starter.
use moto_ctrl.Base.{
  ℕ, ℤ, pos, negsuc, Bool, true, false, not, ◌&&◌, Option, none, [], if◌then◌else◌, update,
  find_from,
}
use moto_ctrl.Output.Types.{
  Side, no_side, left, right, Source, local, remote, Result, ok, starter_remote_blocked,
  starter_engine_running, starter_interlock, Channel, Config, Hal, Engine, output_count,
}

abbrev pub same_side : Side → Side → Bool
same_side no_side no_side = true
same_side left left = true
same_side right right = true
same_side _ _ = false

abbrev pub is_turn : Channel → Bool
is_turn cfg = not (same_side cfg.indicator no_side)

abbrev pub opposite_of : Side → Side
opposite_of left = right
opposite_of _ = left

-- `mc_output_find_brake_channel`, `mc_output_find_ignition_channel`; -1 is `none`.
unfoldable pub find_brake_channel : Config → Option ℕ
find_brake_channel config = find_from output_count 0 (λ i. (config.channels i).is_brake)

unfoldable pub find_ignition_channel : Config → Option ℕ
find_ignition_channel config = find_from output_count 0 (λ i. (config.channels i).is_ignition)

-- `mc_output_find_indicator_channel`
unfoldable pub find_indicator_channel : Config → Side → Option ℕ
find_indicator_channel config no_side = none
find_indicator_channel config side =
    find_from output_count 0 (λ i. same_side (config.channels i).indicator side)

-- `mc_output_init`
unfoldable pub init : Config → Hal → Engine
init config hal = record {
  config = config;
  hal = hal;
  calls = [];
  engine_running = false;
  interlock_engaged = false;
  immobilized = false;
  lv_cutoff = false;
  last_tick_ms = 0;
  turn_auto_cancel_deadline_ms = λ _. 0;
  brake_burst_started_ms = λ _. 0;
  hazard_active = false;
  hazard_saved_mask = λ _. false;
}

abbrev pub is_assigned : ℤ → Bool
is_assigned (pos _) = true
is_assigned (negsuc _) = false

-- `validate_starter_command`
unfoldable pub validate_starter_command : Engine → Source → Result
validate_starter_command eng remote = starter_remote_blocked
validate_starter_command eng local =
    if eng.engine_running
    then starter_engine_running
    else if is_assigned eng.config.starter_interlock_input && not eng.interlock_engaged
    then starter_interlock
    else ok

-- `eng->turn_auto_cancel_deadline_ms[ch] = deadline`
abbrev pub set_deadline : ℕ → ℕ → Engine → Engine
set_deadline ch deadline eng = record eng {
  turn_auto_cancel_deadline_ms = update eng.turn_auto_cancel_deadline_ms ch deadline;
}

abbrev pub same_bit : Bool → Bool → Bool
same_bit true b = b
same_bit false b = not b
