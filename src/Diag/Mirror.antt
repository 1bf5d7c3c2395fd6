-- ===== src/Diag/Mirror.antt =====
-- What `mc_diag_tick` derives from the battery and tells the output engine
-- (firmware/components/core/mc_diag.c).
use moto_ctrl.Base.{
  ℕ, zero, suc, ◌+◌, ◌<◌, ◌≡◌, refl, sym, subst, ap, ◌∙◌, Bool, true, false, ◌↔◌, ◌⊎◌, inl, inr,
  some, arith, Bool-cases,
}
use moto_ctrl.Output.Types.{Engine, output_count}
use moto_ctrl.Output.Drive.{get_state, get_actual_state}
use moto_ctrl.Output.Parts.{find_ignition_channel}
use moto_ctrl.Output.Clock.{set_engine_running, set_lv_cutoff}
use moto_ctrl.Output.Frames.{Still}
use moto_ctrl.Output.Trace.{engine_running-set_engine_running, still-set_lv_cutoff}
use moto_ctrl.Diag.Types.{DiagConfig, Floats, Calib, Readings, Diag}
use moto_ctrl.Diag.Tick.{
  detect_running, ignition_gate, decide_cutoff, skip_channel, sample_channel, sample, read_battery,
  tick,
}

-- What sampling and reading the battery leave alone.
abbrev Steady : Type 0 → Type 0
Steady F = DiagConfig × Calib F × Bool × Bool

module _ {F : Type 0} where
  abbrev steady : Diag F → Steady F
  steady d = (d.config, d.calib, d.engine_running, d.lv_cutoff_active)

told :
    (cutoff running : Bool) (output : Engine)
    → ((set_lv_cutoff cutoff (set_engine_running running output)).engine_running ≡ running)
      × ((set_lv_cutoff cutoff (set_engine_running running output)).lv_cutoff ≡ cutoff)
told cutoff running output =
    let noted = set_engine_running running output in
    let same = still-set_lv_cutoff cutoff noted in
    (
      ap (λ (x : Still). x.0.engine_running) same
          ∙ engine_running-set_engine_running running output,
      ap (λ (x : Still). x.0.lv_cutoff) same,
    )

-- The gate lets an engine run only on a live ignition.
ignition_gate-true :
    (output : Engine) (running : Bool)
    → ignition_gate output running ≡ true
    → (ch : ℕ) → find_ignition_channel output.config ≡ some ch
    → get_state output ch ≡ true
unfolding ignition_gate
ignition_gate-true output running h ch e = ground (arith, h, e)

detect-true :
    (output : Engine) (config : DiagConfig) (mv : ℕ) (running : Bool)
    → ignition_gate output (detect_running config mv running) ≡ true
    → config.engine_run_voltage_detection_enabled ≡ true
unfolding ignition_gate detect_running
detect-true output config mv running h = ground (arith, h)

decide_cutoff-running :
    (config : DiagConfig) (mv : ℕ) (running cutoff : Bool)
    → running ≡ true
    → decide_cutoff config mv running cutoff ≡ false
unfolding decide_cutoff
decide_cutoff-running config mv running cutoff h = ground arith

decide_cutoff_iff :
    (config : DiagConfig) (mv : ℕ) (running cutoff : Bool)
    → (decide_cutoff config mv running cutoff ≡ true) ↔ (
        (running ≡ false)
        × (((cutoff ≡ false) × (0 < mv) × (mv < config.lv_cutoff_mv))
            ⊎ ((cutoff ≡ true) × (mv < config.lv_cutoff_mv + config.lv_cutoff_hysteresis_mv))))
unfolding decide_cutoff
decide_cutoff_iff config mv running true = (λ h. ground (arith, h), λ h. ground (arith, h))
decide_cutoff_iff config mv running false = (λ h. ground (arith, h), λ h. ground (arith, h))

-- The same, where the settings and the old cutoff are known by their equations.
decide_cutoff_known :
    (config known : DiagConfig) (mv : ℕ) (running cutoff before : Bool)
    → known ≡ config
    → before ≡ cutoff
    → (decide_cutoff config mv running cutoff ≡ true) ↔ (
        (running ≡ false)
        × (((before ≡ false) × (0 < mv) × (mv < known.lv_cutoff_mv))
            ⊎ ((before ≡ true) × (mv < known.lv_cutoff_mv + known.lv_cutoff_hysteresis_mv))))
decide_cutoff_known config known mv running cutoff before e e' =
    subst
      (λ (x : DiagConfig × Bool). (decide_cutoff x.0 mv running x.1 ≡ true) ↔ (
        (running ≡ false)
        × (((before ≡ false) × (0 < mv) × (mv < known.lv_cutoff_mv))
            ⊎ ((before ≡ true) × (mv < known.lv_cutoff_mv + known.lv_cutoff_hysteresis_mv)))))
      (λ i. (e i, e' i)) (decide_cutoff_iff known mv running before)

module _ {F : Type 0} (fl : Floats F) (r : Readings) (output : Engine) (now : ℕ) where
  steady-sample : (n : ℕ) (d : Diag F) → steady (sample fl r output now n d) ≡ steady d
  unfolding sample
  steady-sample zero d = refl
  steady-sample (suc n) d = elim (Bool-cases (get_actual_state output d.next_sample_channel now)) [
    | inl on ↦ unfold sample_channel in rw on refl
    | inr off ↦
        rw off (steady-sample n (skip_channel fl r output now d) ∙ (unfold skip_channel in refl))
  ]

  -- What the tick tells the output engine is what it notes itself.
  pub tick-mirrors :
      (d : Diag F)
      → ((tick fl r output now d).1.engine_running ≡ (tick fl r output now d).0.engine_running)
        × ((tick fl r output now d).1.lv_cutoff ≡ (tick fl r output now d).0.lv_cutoff_active)
  unfolding tick
  tick-mirrors d = told _ _ output

  -- After the tick, an engine that counts as running has a live ignition, where a channel has that
  -- role, and detection by voltage on; and the low-voltage cutoff is then off.
  pub tick-running :
      (d : Diag F)
      → (tick fl r output now d).0.engine_running ≡ true
      → (d.config.engine_run_voltage_detection_enabled ≡ true)
        × ((ch : ℕ) → find_ignition_channel output.config ≡ some ch → get_state output ch ≡ true)
        × ((tick fl r output now d).0.lv_cutoff_active ≡ false)
  unfolding tick read_battery
  tick-running d h =
      let same = steady-sample output_count d in
      (
        ap (λ (x : Steady F). x.0.engine_run_voltage_detection_enabled) (sym same)
            ∙ detect-true output _ _ _ h,
        ignition_gate-true output _ h,
        decide_cutoff-running _ _ _ _ h,
      )

  -- After the tick the cutoff is on exactly where the engine does not run and the battery's reading is
  -- below the threshold, or below the threshold with its hysteresis if the cutoff was on before. A
  -- reading of zero does not switch it on.
  pub tick-cutoff_exact :
      (d : Diag F)
      → let t = (tick fl r output now d).0 in
        let cfg = d.config in
        (t.lv_cutoff_active ≡ true) ↔ (
          (t.engine_running ≡ false)
          × (((d.lv_cutoff_active ≡ false) × (0 < t.battery_mv) × (t.battery_mv < cfg.lv_cutoff_mv))
              ⊎ ((d.lv_cutoff_active ≡ true)
                  × (t.battery_mv < cfg.lv_cutoff_mv + cfg.lv_cutoff_hysteresis_mv))))
  unfolding tick read_battery
  tick-cutoff_exact d =
      let same = sym (steady-sample output_count d) in
      decide_cutoff_known _ d.config _ _ _ d.lv_cutoff_active (ap (λ (x : Steady F). x.0) same)
        (ap (λ (x : Steady F). x.3) same)
