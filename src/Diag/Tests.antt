-- ===== src/Diag/Tests.antt =====
-- Diagnostics with whole numbers for the floats, on the motorcycle of Output/Bike.
use moto_ctrl.Base.{
  ℕ, zero, suc, ◌+◌, ◌*◌, ◌/◌, ◌%◌, ◌≡◌, ◌≤◌, ◌<◌, refl, pos, negsuc, ◌↔◌, ◌⊎◌, true, false, some,
  List, replicate, ltb, for_range, find_from, arith,
}
use moto_ctrl.Output.Drive.{get_state, get_actual_state, compute_driven_on, behaviour_phase}
use moto_ctrl.Output.Parts.{find_ignition_channel}
use moto_ctrl.Output.Bike.{ridden}
use moto_ctrl.Diag.Types.{
  DiagConfig, Floats, Calib, Readings, Diag, calc_current_ma, calc_battery_mv,
}
use moto_ctrl.Diag.Settings.{config_default, init}
use moto_ctrl.Diag.Tick.{
  tick, sample, sample_channel, skip_channel, read_battery, detect_running, ignition_gate,
  decide_cutoff,
}
use moto_ctrl.Diag.Mirror.{tick-cutoff_exact}
use moto_ctrl.Diag.Sampling.{Moment, StaysOn, Measures, run-Measures}

abbrev pub whole : Floats ℕ
whole = record {
  of_u16 = λ n. n;
  of_i16 = λ z. elim z [ pos n ↦ n | negsuc n ↦ 0 ];
  literal = λ n d. n / d;
  plus = ◌+◌;
  times = ◌*◌;
  over = ◌/◌;
  below = ltb;
  to_u16 = λ n. n % 65536;
  bits = λ n. n;
  of_bits = λ n. n;
}

abbrev calib : Calib ℕ
calib = record {
  is_gain = 1;
  is_offset_mv = pos 0;
  kilis = 2000;
  vbat_gain = 1;
  vbat_offset_mv = pos 0;
}

abbrev config : DiagConfig
config = record {
  channels = λ _. record { open_load_ma = 50; overcurrent_ma = 15000 };
  lv_cutoff_mv = 11800;
  lv_cutoff_hysteresis_mv = 300;
  engine_run_mv = 13800;
  engine_run_hysteresis_mv = 300;
  engine_run_voltage_detection_enabled = true;
}

diag : Diag ℕ
diag = init config calib

abbrev charging : Readings
charging = record { channel_mv = some (λ ch. 4000); vbat_mv = some 14200 }

charges : (tick whole charging ridden 10 diag).0.engine_running ≡ true
unfolding diag init tick sample read_battery get_actual_state detect_running ignition_gate
    find_ignition_channel get_state find_from calc_battery_mv for_range compute_driven_on
    behaviour_phase sample_channel skip_channel config_default
charges = refl

abbrev flat : Readings
flat = record { channel_mv = some (λ ch. 4000); vbat_mv = some 11000 }

tick-cutoff_exact_example : ((tick whole flat ridden 10 diag).0.lv_cutoff_active ≡ true) ↔ (
    ((tick whole flat ridden 10 diag).0.engine_running ≡ false)
    × (((diag.lv_cutoff_active ≡ false)
          × (0 < (tick whole flat ridden 10 diag).0.battery_mv)
          × ((tick whole flat ridden 10 diag).0.battery_mv < diag.config.lv_cutoff_mv))
        ⊎ ((diag.lv_cutoff_active ≡ true)
            × ((tick whole flat ridden 10 diag).0.battery_mv
                < diag.config.lv_cutoff_mv + diag.config.lv_cutoff_hysteresis_mv))))
tick-cutoff_exact_example = tick-cutoff_exact whole flat ridden 10 diag

cuts_off : (tick whole flat ridden 10 diag).0.lv_cutoff_active ≡ true
unfolding diag init tick sample read_battery get_actual_state detect_running ignition_gate
    find_ignition_channel get_state find_from calc_battery_mv for_range compute_driven_on
    behaviour_phase sample_channel skip_channel decide_cutoff
cuts_off = refl

abbrev calls : List Moment
calls = replicate 12 (charging, ridden, 10)

lit : get_actual_state ridden 0 10 ≡ true
unfolding get_actual_state compute_driven_on behaviour_phase
lit = refl

stays_lit : (n : ℕ) → StaysOn 0 (replicate n (charging, ridden, 10))
stays_lit zero = tt
stays_lit (suc n) = (lit, stays_lit n)

run-Measures_example : Measures whole 0 diag calls
run-Measures_example =
    run-Measures whole 0 calls diag (omega arith) (unfold diag init in omega arith) (stays_lit 12)
      (omega arith)

-- More than an overcurrent threshold can be half of.
abbrev shorted : Readings
shorted = record { channel_mv = some (λ ch. 65000); vbat_mv = some 12800 }

draws : (diag.config.channels 0).overcurrent_ma ≤ calc_current_ma whole diag.calib 65000 / 2
unfolding diag init calc_current_ma
draws = omega arith
