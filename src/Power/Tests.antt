-- ===== src/Power/Tests.antt =====
-- The power policy on a bike that is left alone.
use moto_ctrl.Base.{false, [], ◌∷◌}
use moto_ctrl.Power.Policy.{active, PowerInputs, PowerConfig, Power, profile_of, init}
use moto_ctrl.Power.Applied.{Follows, tick_at, take_change, run, run-Follows}

abbrev quiet : PowerInputs
quiet = record {
  outputs_active = false;
  engine_running = false;
  ignition_live = false;
  ota_active = false;
  session_connected = false;
  input_pending = false;
  factory_reset_armed = false;
}

abbrev timing : PowerConfig
timing = record { idle_after_ms = 5000; parked_after_ms = 60000 }

run-Follows_example :
    let (p, applied) =
      run
        (tick_at quiet 7000 ∷ take_change ∷ tick_at quiet 70000 ∷ [])
        (init timing 1000, profile_of active) in
    Follows p applied
run-Follows_example =
    run-Follows timing 1000 (tick_at quiet 7000 ∷ take_change ∷ tick_at quiet 70000 ∷ [])

abbrev awake : Power
awake = record {
  config = timing;
  state = active;
  last_active_ms = 1000;
  profile = profile_of active;
  profile_changed = false;
}
