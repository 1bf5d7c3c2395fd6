-- ===== src/Output/Bike.antt =====
-- A motorcycle to try the output engine on.
use moto_ctrl.Base.{ℕ, pos, minus_one, true, false, [], ◌==◌, if◌then◌else◌}
use moto_ctrl.Output.Types.{
  toggle, momentary, flasher, no_side, left, right, Channel, Config, Engine,
}

abbrev pub plain : Channel
plain = record {
  name = [];
  behaviour = toggle;
  commanded_on = false;
  pwm_duty_pct = 100;
  essential = false;
  is_ignition = false;
  is_starter = false;
  is_brake = false;
  indicator = no_side;
  hazard_member = false;
  on_with_ignition = false;
  alternate_channel = minus_one;
}

-- Ignition 0, starter 1, dipped beam 2 and main beam 3 in a pair, indicators 4 and 5, brake light 6.
abbrev pub bike_channel : ℕ → Channel
bike_channel ch =
    if ch == 0
    then record plain { is_ignition = true }
    else if ch == 1
    then record plain { is_starter = true; behaviour = momentary }
    else if ch == 2
    then record plain { on_with_ignition = true; alternate_channel = pos 3; essential = true }
    else if ch == 3
    then record plain { alternate_channel = pos 2 }
    else if ch == 4
    then record plain { indicator = left; hazard_member = true }
    else if ch == 5
    then record plain { indicator = right; hazard_member = true }
    else if ch == 6
    then record plain { is_brake = true; behaviour = flasher }
    else plain

abbrev pub bike_config : Config
bike_config = record {
  channels = bike_channel;
  starter_interlock_input = pos 2;
  brake_switch_input = pos 1;
  turn_auto_cancel_ms = 30000;
  turn_flash_period_ms = 700;
  brake_flash_pulse_count = 3;
  brake_flash_pulse_on_ms = 150;
  brake_flash_pulse_off_ms = 50;
}

-- The bike at rest, a thousand milliseconds after it was switched on.
abbrev pub bike : Engine
bike = record {
  config = bike_config;
  hal = record { has_set = true; has_set_duty = true };
  calls = [];
  engine_running = false;
  interlock_engaged = false;
  immobilized = false;
  lv_cutoff = false;
  last_tick_ms = 1000;
  turn_auto_cancel_deadline_ms = λ _. 0;
  brake_burst_started_ms = λ _. 0;
  hazard_active = false;
  hazard_saved_mask = λ _. false;
}

-- The bike with one channel's configuration changed.
abbrev pub with_channel : ℕ → Channel → Engine → Engine
with_channel ch cfg eng = record eng {
  config = record eng.config { channels = λ j. if j == ch then cfg else eng.config.channels j };
}

-- The bike with the ignition on.
abbrev pub ridden : Engine
ridden = with_channel 0 (record (bike_channel 0) { commanded_on = true }) bike
