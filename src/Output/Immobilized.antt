-- ===== src/Output/Immobilized.antt =====
-- What an immobilized engine still does.
use moto_ctrl.Base.{ℕ, ◌<◌, ◌≡◌, ap, ◌∙◌, Bool, true, false, none, Bool-cases, inl, inr, arith}
use moto_ctrl.Output.Types.{Source, Result, Engine, channel, output_count}
use moto_ctrl.Output.Command.{set, alternate_press}
use moto_ctrl.Output.Hazards.{has_members, hazard_press}
use moto_ctrl.Output.Clock.{set_interlock_engaged}
use moto_ctrl.Output.Frames.{frame, Still, still-end_hazard_mode, cell-end_hazard_mode}
use moto_ctrl.Output.Rounds.{still-start}
use moto_ctrl.Output.Switch.{switched, on-switch, still-switch}
use moto_ctrl.Output.Guards.{set-cases, alternate_press-cases}
use moto_ctrl.Output.Borrow.{hazard_press-stop, hazard_press-empty}
use moto_ctrl.Output.Trace.{
  Op, command, alternate, press_hazards, pass_time, engine, interlock, immobilize, cutoff, restore,
  step, cell-tick, cell-restore_from_config, cell-set_lv_cutoff, cell-set_engine_running,
}

-- A command changes no setting of the engine, whether it is accepted or not.
pub frame-set :
    (s : Engine) (ch : ℕ) (on : Bool) (src : Source) → frame (set s ch on src).1 ≡ frame s
frame-set s ch on src = elim (set-cases s ch on src) [
  | inl (_, e) ↦ ap frame e
  | inr (_, e, by) ↦ ap frame e ∙ ap (λ (x : Still). x.0) (still-switch ch on s by.in_range)
]

pub frame-alternate_press :
    (s : Engine) (ch : ℕ) (src : Source) → frame (alternate_press s ch src).1 ≡ frame s
frame-alternate_press s ch src = elim (alternate_press-cases s ch src) [
  | inl (_, e) ↦ ap frame e
  | inr (p, _, _, _, _, e) ↦ ap (λ (r : Result × Engine). frame r.1) e ∙ frame-set s _ true src
]

pub frame-hazard_press : (now : ℕ) (s : Engine) → frame (hazard_press now s) ≡ frame s
frame-hazard_press now s = elim (Bool-cases (has_members s.config)) [
  | inr none_in ↦ ap frame (hazard_press-empty now s none_in)
  | inl some_in ↦ elim (Bool-cases s.hazard_active) [
    | inl going ↦
        ap frame (hazard_press-stop now s some_in going)
        ∙ ap (λ (x : Still). x.0) (still-end_hazard_mode none now s)
    | inr idle ↦ (still-start now s some_in idle).0
  ]
]

-- The request is neither the hazard control nor a change of the inhibit.
abbrev pub IsOrdinary : Op → Type 0
IsOrdinary (press_hazards now) = ⊥
IsOrdinary (immobilize on) = ⊥
IsOrdinary _ = Unit

module _ (s : Engine) (held : s.immobilized ≡ true) (calm : s.hazard_active ≡ false) (j : ℕ)
    (lt : j < output_count) (dark : (channel s j).commanded_on ≡ false) where
  pub set-dark :
      (ch : ℕ) (on : Bool) (src : Source)
      → ((channel (set s ch on src).1 j).commanded_on ≡ false)
        × ((set s ch on src).1.hazard_active ≡ false)
  unfolding switched
  set-dark ch on src = elim (set-cases s ch on src) [
    | inl (_, e) ↦ rw e (dark, calm)
    | inr (_, e, by) ↦ ground (
      arith,
      ap (λ (t : Engine). (channel t j).commanded_on) e,
      ap (λ (t : Engine). t.hazard_active) e,
      on-switch ch on s by.in_range j lt,
      still-switch ch on s by.in_range,
      by.mobile,
    )
  ]

  alternate_press-dark :
      (ch : ℕ) (src : Source) → (channel (alternate_press s ch src).1 j).commanded_on ≡ false
  alternate_press-dark ch src = elim (alternate_press-cases s ch src) [
    | inl (_, e) ↦ rw e dark
    | inr (p, _, _, _, _, e) ↦
        ap (λ (r : Result × Engine). (channel r.1 j).commanded_on) e ∙ (set-dark _ true src).0
  ]

  -- While the engine is immobilized and no hazards run, no request but the hazard control and the
  -- release of the inhibit switches a channel on, whoever makes it.
  pub step-dark : (op : Op) → IsOrdinary op → (channel (step op s) j).commanded_on ≡ false
  unfolding step set_interlock_engaged
  step-dark (command ch on src) _ = (set-dark ch on src).0
  step-dark (alternate ch src) _ = alternate_press-dark ch src
  step-dark (press_hazards now) h = absurd h
  step-dark (immobilize on) h = absurd h
  step-dark (pass_time now) _ = ground (arith, cell-tick now s j lt)
  step-dark (engine running) _ = ground (arith, cell-set_engine_running 0 s j lt running)
  step-dark (interlock engaged) _ = dark
  step-dark (cutoff on) _ = ground (arith, cell-set_lv_cutoff 0 s j lt on)
  step-dark restore _ = ground (arith, cell-restore_from_config 0 s j lt)

-- A press that stops the hazards switches a member back on that was lit before they started, also
-- while the engine is immobilized.
pub hazard_press-relights :
    (now : ℕ) (s : Engine) (j : ℕ)
    → s.immobilized ≡ true
    → has_members s.config ≡ true
    → s.hazard_active ≡ true
    → j < output_count
    → (channel s j).hazard_member ≡ true
    → s.hazard_saved_mask j ≡ true
    → let t = hazard_press now s in
      ((channel t j).commanded_on ≡ true) × (t.immobilized ≡ true) × (t.hazard_active ≡ false)
hazard_press-relights now s j held some_in going lt member saved = ground (
  arith,
  hazard_press-stop now s some_in going,
  cell-end_hazard_mode none now s j lt,
  still-end_hazard_mode none now s,
)
