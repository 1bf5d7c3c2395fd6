-- ===== src/Output/Frames.antt =====
-- What each loop of mc_output.c leaves alone, and what it does to a channel in range.
use moto_ctrl.Base.{
  ℕ, ℤ, ◌<◌, ◌≢◌, ◌≡◌, refl, Bool, true, false, not, ◌&&◌, ◌||◌, Option, none, some, ltb, ◌==◌,
  if◌then◌else◌, add32, not_before32, for_range, for_range_frame, for_range_cell, arith, ap, ◌∙◌,
}
use moto_ctrl.Output.Types.{Channel, Hal, Engine, channel, output_count}
use moto_ctrl.Output.Drive.{with_commanded, set_commanded_on_raw}
use moto_ctrl.Output.Parts.{is_turn}
use moto_ctrl.Output.Hazards.{restore_member, end_hazard_mode}
use moto_ctrl.Output.Command.{light_companion, darken, apply_ignition_on, apply_ignition_off}

-- The fields that no loop writes but for `hazard_saved_mask`, which one does.
pub record Frame : Type 0 where
  pub hal : Hal
  pub engine_running : Bool
  pub interlock_engaged : Bool
  pub immobilized : Bool
  pub lv_cutoff : Bool
  pub last_tick_ms : ℕ
  pub starter_interlock_input : ℤ
  pub brake_switch_input : ℤ
  pub turn_auto_cancel_ms : ℕ
  pub turn_flash_period_ms : ℕ
  pub brake_flash_pulse_count : ℕ
  pub brake_flash_pulse_on_ms : ℕ
  pub brake_flash_pulse_off_ms : ℕ

abbrev pub frame : Engine → Frame
frame eng = record {
  hal = eng.hal;
  engine_running = eng.engine_running;
  interlock_engaged = eng.interlock_engaged;
  immobilized = eng.immobilized;
  lv_cutoff = eng.lv_cutoff;
  last_tick_ms = eng.last_tick_ms;
  starter_interlock_input = eng.config.starter_interlock_input;
  brake_switch_input = eng.config.brake_switch_input;
  turn_auto_cancel_ms = eng.config.turn_auto_cancel_ms;
  turn_flash_period_ms = eng.config.turn_flash_period_ms;
  brake_flash_pulse_count = eng.config.brake_flash_pulse_count;
  brake_flash_pulse_on_ms = eng.config.brake_flash_pulse_on_ms;
  brake_flash_pulse_off_ms = eng.config.brake_flash_pulse_off_ms;
}

-- The frame with the hazard state.
abbrev pub Still : Type 0
Still = Frame × Bool × (ℕ → Bool)

abbrev pub still : Engine → Still
still eng = (frame eng, eng.hazard_active, eng.hazard_saved_mask)

-- A channel with its auto-cancel deadline.
abbrev pub Cell : Type 0
Cell = Channel × ℕ

abbrev pub cell : ℕ → Engine → Cell
cell j eng = (channel eng j, eng.turn_auto_cancel_deadline_ms j)

-- What each round does to its own cell, given the frame and the hazard state.
abbrev pub is_except : Option ℕ → ℕ → Bool
is_except none k = false
is_except (some e) k = k == e

abbrev pub restored : Option ℕ → ℕ → Still → ℕ → Cell → Cell
restored except now (f, _, mask) k (c, d) =
    if not c.hazard_member || is_except except k then (c, d) else (
      with_commanded c (mask k),
      if mask k && is_turn c && ltb 0 f.turn_auto_cancel_ms
          then add32 now f.turn_auto_cancel_ms
          else 0,
    )

abbrev pub lit : Cell → Cell
lit (c, d) =
    if not c.on_with_ignition || c.is_ignition || c.commanded_on
    then (c, d)
    else (with_commanded c true, 0)

abbrev pub darkened : Cell → Cell
darkened (c, d) = if c.is_ignition then (c, d) else (with_commanded c false, 0)

abbrev pub expired : ℕ → Cell → Cell
expired now (c, d) =
    if not (d == 0) && not_before32 now d then (with_commanded c false, 0) else (c, d)

abbrev pub starter_cut : Cell → Cell
starter_cut (c, d) = if c.is_starter && c.commanded_on then (with_commanded c false, d) else (c, d)

-- A loop over the channels whose rounds keep the frame and the hazard state, and whose round `k`
-- changes cell `k` alone, by `g`.
module _ (body : ℕ → Engine → Engine) (g : Still → ℕ → Cell → Cell)
    (keep : (k : ℕ) (s : Engine) → still (body k s) ≡ still s)
    (miss : (k j : ℕ) (s : Engine) → j ≢ k → cell j (body k s) ≡ cell j s)
    (hit : (k : ℕ) (s : Engine) → cell k (body k s) ≡ g (still s) k (cell k s)) where
  pub still-loop : (s : Engine) → still (for_range output_count 0 body s) ≡ still s
  still-loop s = for_range_frame still body keep output_count 0 s

  pub cell-loop :
      (s : Engine) (j : ℕ)
      → j < output_count
      → cell j (for_range output_count 0 body s) ≡ g (still s) j (cell j s)
  cell-loop s j lt =
      for_range_cell (λ t. still t ≡ still s) cell (g (still s)) body (λ k t h. keep k t ∙ h)
        (λ k j t h ne. miss k j t ne) (λ k t h. hit k t ∙ ap (λ (x : Still). g x k (cell k t)) h)
        output_count 0 j s refl (omega arith) (omega arith)

-- `end_hazard_mode`
module _ (e : Option ℕ) (now : ℕ) where
  still-restore_member : (k : ℕ) (s : Engine) → still (restore_member e now k s) ≡ still s
  unfolding restore_member set_commanded_on_raw
  still-restore_member k s = ground arith

  miss-restore_member :
      (k j : ℕ) (s : Engine) → j ≢ k → cell j (restore_member e now k s) ≡ cell j s
  unfolding restore_member set_commanded_on_raw
  miss-restore_member k j s ne = ground arith

  hit-restore_member :
      (k : ℕ) (s : Engine)
      → cell k (restore_member e now k s) ≡ restored e now (still s) k (cell k s)
  unfolding restore_member set_commanded_on_raw
  hit-restore_member k s = ground arith

  pub still-end_hazard_mode :
      (s : Engine) → still (end_hazard_mode e now s) ≡ (frame s, false, s.hazard_saved_mask)
  unfolding end_hazard_mode
  still-end_hazard_mode s = ground (
    arith,
    still-loop (restore_member e now) (restored e now) still-restore_member miss-restore_member
        hit-restore_member (record s { hazard_active = false }),
  )

  pub cell-end_hazard_mode :
      (s : Engine) (j : ℕ)
      → j < output_count
      → cell j (end_hazard_mode e now s)
        ≡ (if s.hazard_active then restored e now (still s) j (cell j s) else cell j s)
  unfolding end_hazard_mode
  cell-end_hazard_mode s j lt = ground (
    arith,
    cell-loop (restore_member e now) (restored e now) still-restore_member miss-restore_member
        hit-restore_member (record s { hazard_active = false }) j lt,
  )

-- `apply_ignition_on` and `apply_ignition_off`
module _ (now : ℕ) where
  still-light_companion : (k : ℕ) (s : Engine) → still (light_companion now k s) ≡ still s
  unfolding light_companion set_commanded_on_raw
  still-light_companion k s = ground arith

  miss-light_companion :
      (k j : ℕ) (s : Engine) → j ≢ k → cell j (light_companion now k s) ≡ cell j s
  unfolding light_companion set_commanded_on_raw
  miss-light_companion k j s ne = ground arith

  hit-light_companion : (k : ℕ) (s : Engine) → cell k (light_companion now k s) ≡ lit (cell k s)
  unfolding light_companion set_commanded_on_raw
  hit-light_companion k s = ground arith

  pub still-apply_ignition_on : (s : Engine) → still (apply_ignition_on now s) ≡ still s
  unfolding apply_ignition_on
  still-apply_ignition_on =
      still-loop (light_companion now) (λ _ _. lit) still-light_companion miss-light_companion
        hit-light_companion

  pub cell-apply_ignition_on :
      (s : Engine) (j : ℕ) → j < output_count → cell j (apply_ignition_on now s) ≡ lit (cell j s)
  unfolding apply_ignition_on
  cell-apply_ignition_on =
      cell-loop (light_companion now) (λ _ _. lit) still-light_companion miss-light_companion
        hit-light_companion

  still-darken : (k : ℕ) (s : Engine) → still (darken now k s) ≡ still s
  unfolding darken set_commanded_on_raw
  still-darken k s = ground arith

  miss-darken : (k j : ℕ) (s : Engine) → j ≢ k → cell j (darken now k s) ≡ cell j s
  unfolding darken set_commanded_on_raw
  miss-darken k j s ne = ground arith

  hit-darken : (k : ℕ) (s : Engine) → cell k (darken now k s) ≡ darkened (cell k s)
  unfolding darken set_commanded_on_raw
  hit-darken k s = ground arith

  pub still-apply_ignition_off :
      (s : Engine) → still (apply_ignition_off now s) ≡ (frame s, false, s.hazard_saved_mask)
  unfolding apply_ignition_off
  still-apply_ignition_off s =
      still-loop (darken now) (λ _ _. darkened) still-darken miss-darken hit-darken
        (record s { hazard_active = false })

  pub cell-apply_ignition_off :
      (s : Engine) (j : ℕ)
      → j < output_count
      → cell j (apply_ignition_off now s) ≡ darkened (cell j s)
  unfolding apply_ignition_off
  cell-apply_ignition_off s =
      cell-loop (darken now) (λ _ _. darkened) still-darken miss-darken hit-darken
        (record s { hazard_active = false })
