-- ===== src/Output/Exclusion.antt =====
-- What one accepted command means for the other channels: turn signals, alternating pairs and the
-- ignition.
use moto_ctrl.Base.{
  ◌⊎◌, ℕ, ◌<◌, ◌≡◌, ◌≢◌, ap, pos, negsuc, Bool, true, false, not, some, Bool-cases, inl, inr, arith,
}
use moto_ctrl.Output.Types.{Source, local, ok, Engine, channel, output_count}
use moto_ctrl.Output.Parts.{is_turn}
use moto_ctrl.Output.Command.{set, alternate_press}
use moto_ctrl.Output.Frames.{frame}
use moto_ctrl.Output.Stages.{opposite, roles}
use moto_ctrl.Output.Switch.{switched, on-switch, still-switch, roles-switch}
use moto_ctrl.Output.Guards.{set-cases, alternate_press-cases}

-- An accepted command leaves its own channel commanded as asked, also where it ends the hazards and
-- where it is an edge of the ignition.
pub set-commands :
    (s : Engine) (ch : ℕ) (on : Bool) (src : Source)
    → (set s ch on src).0 ≡ ok
    → (channel (set s ch on src).1 ch).commanded_on ≡ on
unfolding switched
set-commands s ch on src accepted = elim (set-cases s ch on src) [
  | inl (refused, _) ↦ absurd (refused accepted)
  | inr (_, e, by) ↦ ground (
    arith,
    ap (λ (t : Engine). (channel t ch).commanded_on) e,
    on-switch ch on s by.in_range ch by.in_range,
  )
]

-- An accepted command that switches on an indicator puts out the channel of the other side, and one
-- that switches on a member of a pair puts out its partner. The channel is not the ignition, which
-- may bring companions up.
pub set-excludes :
    (s : Engine) (ch j : ℕ) (src : Source)
    → (set s ch true src).0 ≡ ok
    → (channel s ch).is_ignition ≡ false
    → j < output_count
    → j ≢ ch
    → ((is_turn (channel s ch) ≡ true) × (opposite s ch ≡ some j))
      ⊎ ((channel s ch).alternate_channel ≡ pos j)
    → (channel (set s ch true src).1 j).commanded_on ≡ false
unfolding switched
set-excludes s ch j src accepted plain lt ne other = elim (set-cases s ch true src) [
  | inl (refused, _) ↦ absurd (refused accepted)
  | inr (_, e, by) ↦ ground (
    arith,
    ap (λ (t : Engine). (channel t j).commanded_on) e,
    on-switch ch true s by.in_range j lt,
  )
]

-- Turning the only ignition channel off, from any source and also while immobilized, puts out every
-- channel, ends the hazards, and changes neither the settings of the engine nor what the rider
-- configured of a channel.
pub set-ignition_off :
    (s : Engine) (ign j : ℕ) (src : Source)
    → ign < output_count
    → j < output_count
    → (channel s ign).is_ignition ≡ true
    → ((channel s j).is_ignition ≡ true → j ≡ ign)
    → (channel s ign).commanded_on ≡ true
    → let t = (set s ign false src).1 in
      ((channel t j).commanded_on ≡ false)
      × (t.hazard_active ≡ false)
      × (frame t ≡ frame s)
      × (roles (channel t j) ≡ roles (channel s j))
unfolding switched set
set-ignition_off s ign j src here lt is_ign only lit = ground (
  arith,
  on-switch ign false s here j lt,
  still-switch ign false s here,
  (roles-switch ign false s).at j lt,
)

lit_member :
    (s : Engine) (k o : ℕ) (src : Source)
    → (set s k true src).0 ≡ ok
    → (channel s k).is_ignition ≡ false
    → o < output_count
    → o ≢ k
    → (channel s k).alternate_channel ≡ pos o
    → ((channel (set s k true src).1 k).commanded_on ≡ true)
      × ((channel (set s k true src).1 o).commanded_on ≡ false)
lit_member s k o src accepted plain lt ne link =
    (set-commands s k true src accepted, set-excludes s k o src accepted plain lt ne (inr link))

-- An accepted step of a reciprocal pair, neither of whose members is the ignition, never leaves the
-- pair dark: it lights the partner and puts the channel out if the channel was lit, and otherwise
-- lights the channel and puts the partner out.
pub alternate_press-lights :
    (s : Engine) (ch p : ℕ) (src : Source)
    → (alternate_press s ch src).0 ≡ ok
    → (channel s ch).alternate_channel ≡ pos p
    → (channel s p).alternate_channel ≡ pos ch
    → (channel s ch).is_ignition ≡ false
    → (channel s p).is_ignition ≡ false
    → let t = (alternate_press s ch src).1 in
      ((channel t ch).commanded_on ≡ not (channel s ch).commanded_on)
      × ((channel t p).commanded_on ≡ (channel s ch).commanded_on)
alternate_press-lights s ch p src accepted there back plain plain' =
    elim (alternate_press-cases s ch src) [
      | inl (refused, _) ↦ absurd (refused accepted)
      | inr (q, link, lt, lt', ne, e) ↦ elim (Bool-cases (channel s ch).commanded_on) [
        | inl lit ↦ ground (arith, lit_member s p ch src)
        | inr dark ↦ ground (arith, lit_member s ch p src)
      ]
    ]

-- Switching the ignition on lights a companion whose partner in an alternating pair is already lit,
-- and leaves the partner lit: both members are on. The ignition is itself in no pair or hazard
-- group and no indicator, and nothing is immobilized.
pub set-ignition_lights_both :
    (s : Engine) (ign a b n : ℕ)
    → ign < output_count
    → a < output_count
    → b < output_count
    → (channel s ign).is_ignition ≡ true
    → (channel s ign).is_starter ≡ false
    → (channel s ign).hazard_member ≡ false
    → is_turn (channel s ign) ≡ false
    → (channel s ign).alternate_channel ≡ negsuc n
    → (channel s ign).commanded_on ≡ false
    → s.immobilized ≡ false
    → (channel s a).on_with_ignition ≡ true
    → (channel s a).is_ignition ≡ false
    → (channel s a).alternate_channel ≡ pos b
    → b ≢ ign
    → (channel s b).commanded_on ≡ true
    → let t = (set s ign true local).1 in
      ((channel t a).commanded_on ≡ true) × ((channel t b).commanded_on ≡ true)
unfolding switched set
set-ignition_lights_both s ign a b n here lt lt' i1 i2 i3 i4 i5 i6 mobile a1 a2 a3 ne lit =
    ground (arith, on-switch ign true s here a lt, on-switch ign true s here b lt')
