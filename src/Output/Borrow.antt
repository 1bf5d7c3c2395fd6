-- ===== src/Output/Borrow.antt =====
-- The hazards borrow their group: what starting and stopping them does to every channel.
use moto_ctrl.Base.{
  ℕ, ◌<◌, ◌≡◌, ap, ◌∙◌, true, false, none, any_from-ext, any_from-false, Bool-cases, inl, inr,
  arith,
}
use moto_ctrl.Output.Types.{Channel, Engine, channel, output_count}
use moto_ctrl.Output.Drive.{blink_phase, get_actual_state, compute_driven_on}
use moto_ctrl.Output.Hazards.{end_hazard_mode, has_members, hazard_press}
use moto_ctrl.Output.Frames.{frame, still-end_hazard_mode, cell-end_hazard_mode}
use moto_ctrl.Output.Rounds.{still-start, cell-start}
use moto_ctrl.Output.Stages.{roles}
use moto_ctrl.Output.Switch.{SameRoles}

has_members-SameRoles : {s t : Engine} → SameRoles s t → has_members t.config ≡ has_members s.config
unfolding has_members
has_members-SameRoles same =
    any_from-ext output_count 0 _ _
      (λ j le lt. ap (λ (c : Channel). c.hazard_member) (same.at j (omega arith)))

pub hazard_press-stop :
    (now : ℕ) (s : Engine)
    → has_members s.config ≡ true
    → s.hazard_active ≡ true
    → hazard_press now s ≡ end_hazard_mode none now s
unfolding hazard_press
hazard_press-stop now s m h = ground arith

pub hazard_press-empty :
    (now : ℕ) (s : Engine) → has_members s.config ≡ false → hazard_press now s ≡ s
unfolding hazard_press
hazard_press-empty now s m = ground arith

pub roles-hazard_press : (now : ℕ) (s : Engine) → SameRoles s (hazard_press now s)
roles-hazard_press now s = elim (Bool-cases (has_members s.config)) [
  | inr none_in ↦ record {
    at = λ j lt. ap (λ (t : Engine). roles (channel t j)) (hazard_press-empty now s none_in);
  }
  | inl some_in ↦ elim (Bool-cases s.hazard_active) [
    | inl going ↦ record {
      at = λ j lt.
          ground
            (arith, hazard_press-stop now s some_in going, cell-end_hazard_mode none now s j lt);
    }
    | inr idle ↦ record { at = λ j lt. ground (arith, cell-start now s some_in idle j lt) }
  ]
]

-- Pressing the hazard control twice, from stopped hazards, puts every channel back as it was and
-- leaves the hazards stopped, at whatever times the presses come.
pub hazard_press-twice :
    (now later : ℕ) (s : Engine) (j : ℕ)
    → s.hazard_active ≡ false
    → j < output_count
    → let t = hazard_press later (hazard_press now s) in
      (channel t j ≡ channel s j) × (t.hazard_active ≡ false) × (frame t ≡ frame s)
hazard_press-twice now later s j idle lt = elim (Bool-cases (has_members s.config)) [
  | inr none_in ↦
      ground (arith, hazard_press-empty now s none_in, hazard_press-empty later s none_in)
  | inl some_in ↦
      let t = hazard_press now s in
      let going = (still-start now s some_in idle).1 in
      let still_in = has_members-SameRoles (roles-hazard_press now s) ∙ some_in in
      ground (
        arith,
        still-start now s some_in idle,
        cell-start now s some_in idle j lt,
        hazard_press-stop later t still_in going,
        still-end_hazard_mode none later t,
        cell-end_hazard_mode none later t j lt,
      )
]

-- Starting the hazards commands every member on, whatever its behaviour is then, and each of them
-- is driven in the blink phase unless the low-voltage cutoff suppresses it.
pub hazard_press-blinks :
    (now at_ms : ℕ) (s : Engine) (j : ℕ)
    → s.hazard_active ≡ false
    → j < output_count
    → (channel s j).hazard_member ≡ true
    → s.lv_cutoff ≡ false
    → let t = hazard_press now s in
      ((channel t j).commanded_on ≡ true)
      × (get_actual_state t j at_ms ≡ blink_phase t.config at_ms)
unfolding get_actual_state compute_driven_on has_members
hazard_press-blinks now at_ms s j idle lt member powered =
    elim (Bool-cases (has_members s.config)) [
      | inr none_in ↦ ground (
        arith,
        any_from-false output_count 0 (λ ch. (channel s ch).hazard_member) none_in j (omega arith)
            (omega arith),
      )
      | inl some_in ↦
          ground (arith, still-start now s some_in idle, cell-start now s some_in idle j lt)
    ]
