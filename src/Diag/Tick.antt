-- ===== src/Diag/Tick.antt =====
-- `mc_diag_tick` of firmware/components/core/mc_diag.c.
use moto_ctrl.Base.{
  ℕ, zero, suc, ◌+◌, ◌%◌, ◌^◌, Bool, true, false, not, ◌&&◌, none, some, ltb, leb, if◌then◌else◌,
  update, for_range,
}
use moto_ctrl.Output.Types.{Engine, output_count}
use moto_ctrl.Output.Drive.{get_state, get_actual_state}
use moto_ctrl.Output.Parts.{find_ignition_channel}
use moto_ctrl.Output.Clock.{set_engine_running, set_lv_cutoff}
use moto_ctrl.Diag.Types.{
  Fault, no_fault, open_load, overcurrent, Thresholds, DiagConfig, Floats, Readings, Diag,
  calc_current_ma, calc_battery_mv,
}
use moto_ctrl.Diag.Settings.{read_channel}

abbrev pub is_fault : Fault → Bool
is_fault no_fault = false
is_fault _ = true

-- What a current means for a channel.
unfoldable pub classify : Thresholds → ℕ → Fault
classify th ma =
    if ltb ma th.open_load_ma
    then open_load
    else if ltb th.overcurrent_ma ma
    then overcurrent
    else no_fault

-- `mask |= 1 << ch` for each faulty channel; the bits are distinct, so this adds them.
unfoldable pub mask_of : (ℕ → Fault) → ℕ
mask_of fault =
    for_range output_count 0 (λ ch mask. if is_fault (fault ch) then mask + 2 ^ ch else mask) 0

-- The engine's own signal before the ignition is looked at.
unfoldable pub detect_running : DiagConfig → ℕ → Bool → Bool
detect_running config battery_mv running =
    if config.engine_run_voltage_detection_enabled
    then (if not running && leb config.engine_run_mv battery_mv
        then true
        else if running && ltb (battery_mv + config.engine_run_hysteresis_mv) config.engine_run_mv
        then false
        else running)
    else false

-- An engine whose ignition channel is not live does not run.
unfoldable pub ignition_gate : Engine → Bool → Bool
ignition_gate output running = elim (find_ignition_channel output.config) [
  | none ↦ running
  | some ch ↦ if not (get_state output ch) then false else running
]

-- The low-voltage cutoff.
unfoldable pub decide_cutoff : DiagConfig → ℕ → Bool → Bool → Bool
decide_cutoff config battery_mv running cutoff =
    if running
    then false
    else if not cutoff
    then ltb 0 battery_mv && ltb battery_mv config.lv_cutoff_mv
    else if leb (config.lv_cutoff_mv + config.lv_cutoff_hysteresis_mv) battery_mv
    then false
    else cutoff

module _ {F : Type 0} (fl : Floats F) (r : Readings) (output : Engine) (now : ℕ) where
  -- A channel that is not energized.
  unfoldable pub skip_channel : Diag F → Diag F
  skip_channel diag = record diag {
    current_ma = update diag.current_ma diag.next_sample_channel 0;
    fault = update diag.fault diag.next_sample_channel no_fault;
    next_sample_channel = (diag.next_sample_channel + 1) % output_count;
  }

  -- The one real sample.
  unfoldable pub sample_channel : Diag F → Diag F
  unfolding classify
  sample_channel diag =
      let ch = diag.next_sample_channel in
      let ma = calc_current_ma fl diag.calib (read_channel r ch) in
      record diag {
        current_ma = update diag.current_ma ch ma;
        fault = update diag.fault ch (classify (diag.config.channels ch) ma);
        next_sample_channel = (ch + 1) % output_count;
      }

  -- The sampling loop, with its rounds left; `break` after a real sample.
  unfoldable pub sample : ℕ → Diag F → Diag F
  unfolding skip_channel sample_channel
  sample zero diag = diag
  sample (suc n) diag =
      let rest = sample n (skip_channel diag) in
      if not (get_actual_state output diag.next_sample_channel now)
      then rest
      else sample_channel diag

  -- The battery's reading.
  unfoldable pub read_battery : Diag F → Diag F
  unfolding mask_of
  read_battery diag = record diag {
    fault_mask = mask_of diag.fault;
    battery_mv = calc_battery_mv fl diag.calib (elim r.vbat_mv [ none ↦ 0 | some mv ↦ mv ]);
  }

  -- `mc_diag_tick`
  unfoldable pub tick : Diag F → Diag F × Engine
  unfolding read_battery sample
  tick diag =
      let d = read_battery (sample output_count diag) in
      let running = ignition_gate output (detect_running d.config d.battery_mv d.engine_running) in
      let cutoff = decide_cutoff d.config d.battery_mv running d.lv_cutoff_active in
      (
        record d { engine_running = running; lv_cutoff_active = cutoff },
        set_lv_cutoff cutoff (set_engine_running running output),
      )
