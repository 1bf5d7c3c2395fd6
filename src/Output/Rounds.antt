-- ===== src/Output/Rounds.antt =====
-- The loops of `mc_output_hazard_press`, `mc_output_tick`, `mc_output_set_engine_running` and
-- `mc_output_restore_from_config`, channel by channel.
use moto_ctrl.Base.{
  ℕ, ◌<◌, ◌≡◌, ◌≢◌, refl, ap, Bool, true, false, Option, none, some, List, [], ◌∷◌, ◌==◌,
  if◌then◌else◌, for_range, for_range_frame, for_range_cell, arith,
}
use moto_ctrl.Output.Types.{HalCall, level, duty, Engine, output_count}
use moto_ctrl.Output.Drive.{
  hal_call, apply_hal_state, with_commanded, set_commanded_on_raw, get_actual_state,
  compute_driven_on,
}
use moto_ctrl.Output.Hazards.{take_over, has_members, hazard_press}
use moto_ctrl.Output.Clock.{expire, cut_starter}
use moto_ctrl.Output.Frames.{
  Frame, frame, still, Cell, cell, expired, starter_cut, still-loop, cell-loop,
}

-- The take-over loop: a cell with its bit of the saved mask.
abbrev pub masked : ℕ → Engine → Cell × Bool
masked j eng = (cell j eng, eng.hazard_saved_mask j)

abbrev pub taken : Cell × Bool → Cell × Bool
taken ((c, d), b) =
    if c.hazard_member
    then ((with_commanded c true, 0), (if c.commanded_on then true else b))
    else ((c, d), b)

abbrev steady : Engine → Frame × Bool
steady eng = (frame eng, eng.hazard_active)

module _ (now : ℕ) where
  steady-take_over : (k : ℕ) (s : Engine) → steady (take_over now k s) ≡ steady s
  unfolding take_over set_commanded_on_raw
  steady-take_over k s = ground arith

  miss-take_over : (k j : ℕ) (s : Engine) → j ≢ k → masked j (take_over now k s) ≡ masked j s
  unfolding take_over set_commanded_on_raw
  miss-take_over k j s ne = ground arith

  hit-take_over : (k : ℕ) (s : Engine) → masked k (take_over now k s) ≡ taken (masked k s)
  unfolding take_over set_commanded_on_raw
  hit-take_over k s = ground arith

  frame-hazard_press : (s : Engine) → frame (for_range output_count 0 (take_over now) s) ≡ frame s
  frame-hazard_press s =
      ap (λ (x : Frame × Bool). x.0)
        (for_range_frame steady (take_over now) steady-take_over output_count 0 s)

  masked-hazard_press :
      (s : Engine) (j : ℕ)
      → j < output_count
      → masked j (for_range output_count 0 (take_over now) s) ≡ taken (masked j s)
  masked-hazard_press s j lt =
      for_range_cell (λ t. Unit {0}) masked (λ _. taken) (take_over now) (λ k t h. h)
        (λ k j t h ne. miss-take_over k j t ne) (λ k t h. hit-take_over k t) output_count 0 j s tt
        (omega arith) (omega arith)

-- A press that starts the hazards: every member goes on with no deadline, its state is saved, and
-- nothing else changes.
module _ (now : ℕ) (s : Engine) (members : has_members s.config ≡ true)
    (idle : s.hazard_active ≡ false) where
  pub still-start :
      (frame (hazard_press now s) ≡ frame s) × ((hazard_press now s).hazard_active ≡ true)
  unfolding hazard_press
  still-start = ground (arith, frame-hazard_press now (record s { hazard_saved_mask = λ _. false }))

  pub cell-start :
      (j : ℕ) → j < output_count → masked j (hazard_press now s) ≡ taken (cell j s, false)
  unfolding hazard_press
  cell-start j lt =
      ground (arith, masked-hazard_press now (record s { hazard_saved_mask = λ _. false }) j lt)

-- The expiry loop of the tick.
module _ (now : ℕ) where
  still-expire : (k : ℕ) (s : Engine) → still (expire now k s) ≡ still s
  unfolding expire set_commanded_on_raw
  still-expire k s = ground arith

  miss-expire : (k j : ℕ) (s : Engine) → j ≢ k → cell j (expire now k s) ≡ cell j s
  unfolding expire set_commanded_on_raw
  miss-expire k j s ne = ground arith

  hit-expire : (k : ℕ) (s : Engine) → cell k (expire now k s) ≡ expired now (cell k s)
  unfolding expire set_commanded_on_raw
  hit-expire k s = ground arith

  pub still-expire_all : (s : Engine) → still (for_range output_count 0 (expire now) s) ≡ still s
  still-expire_all =
      still-loop (expire now) (λ _ _. expired now) still-expire miss-expire hit-expire

  pub cell-expire_all :
      (s : Engine) (j : ℕ)
      → j < output_count
      → cell j (for_range output_count 0 (expire now) s) ≡ expired now (cell j s)
  cell-expire_all = cell-loop (expire now) (λ _ _. expired now) still-expire miss-expire hit-expire

  still-cut_starter : (k : ℕ) (s : Engine) → still (cut_starter now k s) ≡ still s
  unfolding cut_starter set_commanded_on_raw
  still-cut_starter k s = ground arith

  miss-cut_starter : (k j : ℕ) (s : Engine) → j ≢ k → cell j (cut_starter now k s) ≡ cell j s
  unfolding cut_starter set_commanded_on_raw
  miss-cut_starter k j s ne = ground arith

  hit-cut_starter : (k : ℕ) (s : Engine) → cell k (cut_starter now k s) ≡ starter_cut (cell k s)
  unfolding cut_starter set_commanded_on_raw
  hit-cut_starter k s = ground arith

  pub still-cut_starters :
      (s : Engine) → still (for_range output_count 0 (cut_starter now) s) ≡ still s
  still-cut_starters =
      still-loop (cut_starter now) (λ _ _. starter_cut) still-cut_starter miss-cut_starter
        hit-cut_starter

  pub cell-cut_starters :
      (s : Engine) (j : ℕ)
      → j < output_count
      → cell j (for_range output_count 0 (cut_starter now) s) ≡ starter_cut (cell j s)
  cell-cut_starters =
      cell-loop (cut_starter now) (λ _ _. starter_cut) still-cut_starter miss-cut_starter
        hit-cut_starter

-- The loop that calls the HAL for every channel.
abbrev pub call_channel : HalCall → ℕ
call_channel (level ch on) = ch
call_channel (duty ch pct) = ch

-- The newest call for a channel.
abbrev pub last_call : ℕ → List HalCall → Option HalCall
last_call ch [] = none
last_call ch (c ∷ cs) = if ch == call_channel c then some c else last_call ch cs

-- All but the calls.
abbrev pub silent : Engine → Engine
silent s = record s { calls = [] }

module _ (now : ℕ) where
  silent-apply_hal_state : (k : ℕ) (s : Engine) → silent (apply_hal_state now k s) ≡ silent s
  unfolding apply_hal_state
  silent-apply_hal_state k s = refl

  call_channel-hal_call : (k : ℕ) (s : Engine) → call_channel (hal_call s k now) ≡ k
  unfolding hal_call
  call_channel-hal_call k s = ground arith

  pub silent-apply_all :
      (s : Engine) → silent (for_range output_count 0 (apply_hal_state now) s) ≡ silent s
  silent-apply_all s =
      for_range_frame silent (apply_hal_state now) silent-apply_hal_state output_count 0 s

  hal_call-silent : (k : ℕ) (s : Engine) → hal_call s k now ≡ hal_call (silent s) k now
  unfolding hal_call get_actual_state compute_driven_on
  hal_call-silent k s = refl

  pub last_call-apply_all :
      (s : Engine) (j : ℕ)
      → s.hal.has_set ≡ true
      → j < output_count
      → last_call j (for_range output_count 0 (apply_hal_state now) s).calls
        ≡ some (hal_call s j now)
  unfolding apply_hal_state
  last_call-apply_all s j wired lt =
      for_range_cell (λ t. silent t ≡ silent s) (λ k t. last_call k t.calls)
        (λ k _. some (hal_call s k now)) (apply_hal_state now) (λ k t h. h)
        (λ k j t h ne.
          ground (arith, ap (λ (x : Engine). x.hal.has_set) h, call_channel-hal_call k t))
        (λ k t h. ground (
          arith,
          ap (λ (x : Engine). x.hal.has_set) h,
          call_channel-hal_call k t,
          hal_call-silent k t,
          hal_call-silent k s,
          ap (λ (x : Engine). hal_call x k now) h,
        ))
        output_count 0 j s refl (omega arith) (omega arith)
