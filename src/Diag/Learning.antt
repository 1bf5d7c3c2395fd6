-- ===== src/Diag/Learning.antt =====
-- What `mc_diag_learn` leaves in the settings (firmware/components/core/mc_diag.c).
use moto_ctrl.Base.{
  ℕ, zero, suc, ◌+◌, ◌/◌, ◌≤◌, ◌<◌, ◌≡◌, ◌≢◌, ap, ◌⊎◌, Bool, true, false, not, ◌&&◌, ◌||◌, arith,
  leb, ◌==◌, if◌then◌else◌, for_range, for_range_keeps, for_range_cell,
}
use native.Mathlib.Decide.{ℕ_discrete}
use moto_ctrl.Output.Types.{Engine, output_count}
use moto_ctrl.Output.Drive.{get_actual_state}
use moto_ctrl.Diag.Types.{Thresholds, DiagConfig, Floats, Calib, Readings, Diag, calc_current_ma}
use moto_ctrl.Diag.Settings.{config_validate, read_channel, learn_channel, learn}

abbrev flag_bad : DiagConfig → ℕ → Bool → Bool
flag_bad cfg k flag =
    if leb (cfg.channels k).overcurrent_ma (cfg.channels k).open_load_ma then true else flag

bad_from :
    (n i : ℕ) (cfg : DiagConfig) (flag : Bool) (ch : ℕ)
    → i ≤ ch
    → ch < i + n
    → (cfg.channels ch).overcurrent_ma ≤ (cfg.channels ch).open_load_ma
    → for_range n i (flag_bad cfg) flag ≡ true
unfolding for_range
bad_from zero i cfg flag ch le lt bad = absurd (omega arith)
bad_from (suc n) i cfg flag ch le lt bad = elim (ℕ_discrete i ch) [
  | yes e ↦
      for_range_keeps (λ (b : Bool). b ≡ true) (flag_bad cfg) (λ k b h. ground (arith, h)) n (suc i)
        _ (ground (arith, ap cfg.channels e, bad))
  | no ne ↦ bad_from n (suc i) cfg _ ch (omega arith) (omega arith) bad
]

module _ {F : Type 0} (fl : Floats F) (r : Readings) (output : Engine) (channel : ℕ) where
  -- The channel is asked for and energized.
  abbrev pub is_learned : ℕ → Bool
  is_learned ch =
      (channel == 0xff || ch == channel) && get_actual_state output ch output.last_tick_ms

  abbrev pub learned : Calib F → ℕ → Thresholds → Thresholds
  learned calib ch th =
      if is_learned ch
      then record th { open_load_ma = calc_current_ma fl calib (read_channel r ch) / 2 }
      else th

  abbrev seen : ℕ → Bool × Diag F → Thresholds × Calib F
  seen j s = (s.1.config.channels j, s.1.calib)

  round_other :
      (k j : ℕ) (s : Bool × Diag F)
      → j ≢ k
      → seen j (learn_channel fl r output channel k s) ≡ seen j s
  unfolding learn_channel
  round_other k j (b, d) ne = ground (arith, ne)

  round_own :
      (k : ℕ) (s : Bool × Diag F)
      → seen k (learn_channel fl r output channel k s)
        ≡ (learned s.1.calib k (s.1.config.channels k), s.1.calib)
  unfolding learn_channel
  round_own k (b, d) = ground arith

  -- Learning sets the open-load threshold of exactly the channels that are asked for and energized, to
  -- half of the measured current, and leaves every other threshold; a channel out of range is refused
  -- and changes nothing.
  pub learn_exact :
      (d : Diag F) (ch : ℕ)
      → ch < output_count
      → ((learn fl r d output channel).1.config.channels ch) ≡ (
          if channel == 0xff || not (leb output_count channel)
          then learned d.calib ch (d.config.channels ch)
          else d.config.channels ch)
  unfolding learn
  learn_exact d ch lt = ground (
    arith,
    ap (λ (x : Thresholds × Calib F). x.0)
        (for_range_cell (λ (s : Bool × Diag F). Unit {0}) seen
          (λ k (x : Thresholds × Calib F). (learned x.1 k x.0, x.1))
          (learn_channel fl r output channel) (λ k s h. tt) (λ k j s h. round_other k j s)
          (λ k s h. round_own k s) output_count 0 ch (false, d) tt (omega arith) (omega arith)),
  )

  -- A channel that draws at least twice its overcurrent threshold is learned all the same, and
  -- leaves settings that `mc_diag_config_validate` refuses.
  pub learn-invalidates :
      (d : Diag F) (ch : ℕ)
      → ch < output_count
      → (channel ≡ 0xff) ⊎ (channel ≡ ch)
      → get_actual_state output ch output.last_tick_ms ≡ true
      → (d.config.channels ch).overcurrent_ma ≤ calc_current_ma fl d.calib (read_channel r ch) / 2
      → config_validate (learn fl r d output channel).1.config ≡ true
  unfolding config_validate
  learn-invalidates d ch lt asked on high =
      bad_from output_count 0 (learn fl r d output channel).1.config false ch (omega arith)
        (omega arith) (ground (arith, learn_exact d ch lt))
