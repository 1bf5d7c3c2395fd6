-- ===== src/Output/Switch.antt =====
-- What `mc_output_set` does to every channel, once its guards have passed.
use moto_ctrl.Base.{
  ℕ, ◌<◌, ◌≡◌, refl, ap, ◌∙◌, Bool, true, false, ltb, add32, not, ◌&&◌, ◌||◌, ◌==◌, if◌then◌else◌,
  find_from-ext, arith,
}
use moto_ctrl.Output.Types.{Side, no_side, left, right, Channel, Engine, channel, output_count}
use moto_ctrl.Output.Parts.{
  is_turn, opposite_of, same_bit, same_side, find_indicator_channel, find_ignition_channel,
}
use moto_ctrl.Output.Command.{
  leave_hazards, cancel_opposite, cancel_partner, command_channel, ignition_edge, switch,
}
use moto_ctrl.Output.Frames.{frame, still, is_except}
use moto_ctrl.Output.Stages.{
  roles, is_partner, opposite, cell-leave_hazards, cell-cancel_opposite, cell-cancel_partner,
  cell-command_channel, cell-ignition_edge, still-leave_hazards, still-cancel_opposite,
  still-cancel_partner, still-command_channel, still-ignition_edge,
}

-- The rider's configuration of the channels is the same.
pub record SameRoles (s t : Engine) : Type 0 where
  pub at : (j : ℕ) → j < output_count → roles (channel t j) ≡ roles (channel s j)

pub SameRoles-trans : {s t u : Engine} → SameRoles s t → SameRoles t u → SameRoles s u
SameRoles-trans p q = record { at = λ j lt. q.at j lt ∙ p.at j lt }

module _ (ch : ℕ) (on : Bool) (s : Engine) where
  roles-leave_hazards : SameRoles s (leave_hazards ch s)
  roles-leave_hazards = record { at = λ j lt. ground (arith, cell-leave_hazards ch on s j lt) }

  roles-cancel_opposite : SameRoles s (cancel_opposite ch on s)
  roles-cancel_opposite = record { at = λ j lt. ground (arith, cell-cancel_opposite ch on s j lt) }

  roles-cancel_partner : SameRoles s (cancel_partner ch on s)
  roles-cancel_partner = record { at = λ j lt. ground (arith, cell-cancel_partner ch on s j lt) }

  roles-command_channel : SameRoles s (command_channel ch on s)
  roles-command_channel = record { at = λ j lt. ground (arith, cell-command_channel ch on s j lt) }

  roles-ignition_edge : (was_on : Bool) → SameRoles s (ignition_edge ch was_on on s)
  roles-ignition_edge was_on = record {
    at = λ j lt. ground (arith, cell-ignition_edge ch on s j lt was_on);
  }

-- The searches see the configuration alone.
pub find_indicator_channel-SameRoles :
    {s t : Engine} (side : Side)
    → SameRoles s t
    → find_indicator_channel t.config side ≡ find_indicator_channel s.config side
unfolding find_indicator_channel
find_indicator_channel-SameRoles no_side same = refl
find_indicator_channel-SameRoles left same =
    find_from-ext output_count 0 _ _
      (λ j le lt. ap (λ (c : Channel). same_side c.indicator left) (same.at j (omega arith)))
find_indicator_channel-SameRoles right same =
    find_from-ext output_count 0 _ _
      (λ j le lt. ap (λ (c : Channel). same_side c.indicator right) (same.at j (omega arith)))

pub find_ignition_channel-SameRoles :
    {s t : Engine} → SameRoles s t → find_ignition_channel t.config ≡ find_ignition_channel s.config
unfolding find_ignition_channel
find_ignition_channel-SameRoles same =
    find_from-ext output_count 0 _ _
      (λ j le lt. ap (λ (c : Channel). c.is_ignition) (same.at j (omega arith)))

-- What is commanded of channel `j` once channel `ch` has been commanded `on`, in closed form. First
-- the hazards end, then the opposite indicator and the partner of the pair give way, then the
-- channel itself is set, then an edge of the ignition lights its companions or darkens the bike.
abbrev pub after_hazards : Engine → ℕ → ℕ → Bool
after_hazards s ch j =
    if (channel s ch).hazard_member
      && s.hazard_active
      && (channel s j).hazard_member
      && not (j == ch)
    then s.hazard_saved_mask j
    else (channel s j).commanded_on

abbrev pub gives_way : Engine → ℕ → Bool → ℕ → Bool
gives_way s ch on j =
    on
    && not (j == ch)
    && (is_turn (channel s ch) && is_except (opposite s ch) j || is_partner (channel s ch) j)

abbrev pub settled_on : Engine → ℕ → Bool → ℕ → Bool
settled_on s ch on j =
    if j == ch then on else if gives_way s ch on j then false else after_hazards s ch j

abbrev pub is_edge : Engine → ℕ → Bool → Bool
is_edge s ch on = (channel s ch).is_ignition && not (same_bit (channel s ch).commanded_on on)

unfoldable pub switched : Engine → ℕ → Bool → ℕ → Bool
switched s ch on j =
    let c = channel s j in
    let settled = settled_on s ch on j in
    if is_edge s ch on
    then (if on
        then settled || c.on_with_ignition && not c.is_ignition
        else settled && c.is_ignition)
    else settled

module _ (ch : ℕ) (on : Bool) (s : Engine) where
  parted : Engine
  parted = leave_hazards ch s

  unopposed : Engine
  unopposed = cancel_opposite ch on parted

  settled : Engine
  settled = cancel_partner ch on unopposed

  commanded : Engine
  commanded = command_channel ch on settled

  roles-parted : SameRoles s parted
  unfolding parted
  roles-parted = roles-leave_hazards ch on s

  roles-unopposed : SameRoles s unopposed
  unfolding unopposed
  roles-unopposed = SameRoles-trans roles-parted (roles-cancel_opposite ch on parted)

  roles-settled : SameRoles s settled
  unfolding settled
  roles-settled = SameRoles-trans roles-unopposed (roles-cancel_partner ch on unopposed)

  roles-commanded : SameRoles s commanded
  unfolding commanded
  roles-commanded = SameRoles-trans roles-settled (roles-command_channel ch on settled)

  pub roles-switch : SameRoles s (switch ch on s)
  unfolding switch commanded settled unopposed parted
  roles-switch = SameRoles-trans roles-commanded (roles-ignition_edge ch on commanded _)

module _ (ch : ℕ) (on : Bool) (s : Engine) (here : ch < output_count) where
  opposite-parted : opposite (parted ch on s) ch ≡ opposite s ch
  opposite-parted = ground (
    arith,
    (roles-parted ch on s).at ch here,
    find_indicator_channel-SameRoles (opposite_of (channel s ch).indicator) (roles-parted ch on s),
  )

  on-settled :
      (j : ℕ)
      → j < output_count
      → (channel (settled ch on s) j).commanded_on
        ≡ (if gives_way s ch on j then false else after_hazards s ch j)
  unfolding settled unopposed parted
  on-settled j lt = ground (
    arith,
    cell-leave_hazards ch on s j lt,
    cell-cancel_opposite ch on (unfold parted in parted ch on s) j lt,
    cell-cancel_partner ch on (unfold parted unopposed in unopposed ch on s) j lt,
    opposite-parted,
    (roles-parted ch on s).at ch here,
    (roles-unopposed ch on s).at ch here,
  )

  on-commanded :
      (j : ℕ)
      → j < output_count
      → (channel (commanded ch on s) j).commanded_on ≡ settled_on s ch on j
  unfolding commanded
  on-commanded j lt =
      ground (arith, on-settled j lt, cell-command_channel ch on (settled ch on s) j lt)

  -- Switching a channel leaves every channel commanded as `switched` says.
  pub on-switch :
      (j : ℕ) → j < output_count → (channel (switch ch on s) j).commanded_on ≡ switched s ch on j
  unfolding switch switched commanded settled unopposed parted
  on-switch j lt = ground (
    arith,
    on-settled ch here,
    on-commanded j lt,
    cell-ignition_edge ch on (commanded ch on s) j lt (channel (settled ch on s) ch).commanded_on,
    (roles-commanded ch on s).at ch here,
    (roles-commanded ch on s).at j lt,
  )

  still-settled :
      still (settled ch on s)
      ≡ (frame s, s.hazard_active && not (channel s ch).hazard_member, s.hazard_saved_mask)
  unfolding settled unopposed parted
  still-settled =
      still-cancel_partner ch on (unfold parted unopposed in unopposed ch on s)
      ∙ still-cancel_opposite ch on (unfold parted in parted ch on s)
      ∙ still-leave_hazards ch on s

  -- Switching a channel leaves the other settings alone. It ends the hazards if the channel is a
  -- member, or if it is the ignition going off.
  pub still-switch : still (switch ch on s) ≡ (
    frame s,
    s.hazard_active && not (channel s ch).hazard_member && not (is_edge s ch on && not on),
    s.hazard_saved_mask,
  )
  unfolding switch commanded settled unopposed parted
  still-switch = ground (
    arith,
    on-settled ch here,
    still-settled,
    still-command_channel ch on (settled ch on s),
    still-ignition_edge ch on (commanded ch on s) (channel (settled ch on s) ch).commanded_on,
    (roles-commanded ch on s).at ch here,
  )

  -- Switching an indicator on leaves its auto-cancel deadline as many milliseconds after the last
  -- tick as is configured; a timer of 0 sets none.
  pub deadline-switch :
      on ≡ true
      → is_turn (channel s ch) ≡ true
      → (switch ch on s).turn_auto_cancel_deadline_ms ch ≡ (
          if ltb 0 s.config.turn_auto_cancel_ms
          then add32 s.last_tick_ms s.config.turn_auto_cancel_ms
          else 0)
  unfolding switch commanded settled unopposed parted
  deadline-switch lit turn = ground (
    arith,
    still-settled,
    cell-command_channel ch on (settled ch on s) ch here,
    cell-ignition_edge ch on (commanded ch on s) ch here
        (channel (settled ch on s) ch).commanded_on,
    (roles-settled ch on s).at ch here,
  )
