-- ===== src/Lock/Sweep.antt =====
-- The sweep that makes a locked bike dark.
use moto_ctrl.Base.{
  ℕ, ◌<◌, ◌≡◌, refl, ◌∙◌, subst, Bool, true, false, not, ◌&&◌, if◌then◌else◌, leb, ◌==◌, inl, inr,
  Bool-cases, for_range_frame, for_range_keeps, for_range_cell, find_from-some, find_from-none,
  Option-cases, arith,
}
use moto_ctrl.Output.Types.{local, Engine, channel, output_count}
use moto_ctrl.Output.Drive.{get_state}
use moto_ctrl.Output.Parts.{find_ignition_channel}
use moto_ctrl.Output.Command.{set}
use moto_ctrl.Output.Frames.{frame}
use moto_ctrl.Output.Stages.{roles}
use moto_ctrl.Output.Switch.{SameRoles, SameRoles-trans, switched, on-switch, still-switch}
use moto_ctrl.Output.Trace.{roles-set}
use moto_ctrl.Output.Immobilized.{frame-set}
use moto_ctrl.Lock.Moves.{ignition_is_live, force_off, force_off_on_lock}

-- No ignition channel is commanded on.
pub record IgnitionOff (s : Engine) : Type 0 where
  pub at :
      (j : ℕ)
      → j < output_count
      → (channel s j).is_ignition ≡ true
      → (channel s j).commanded_on ≡ false

-- No two channels are the ignition, as `mc_output_config_validate` demands.
pub record OneIgnition (s : Engine) : Type 0 where
  pub at :
      (i j : ℕ)
      → i < output_count
      → j < output_count
      → (channel s i).is_ignition ≡ true
      → (channel s j).is_ignition ≡ true
      → i ≡ j

-- The test of the lock sees the first ignition channel, which is then the only one.
pub ignition_is_live-false :
    (s : Engine) → OneIgnition s → ignition_is_live s ≡ false → IgnitionOff s
unfolding ignition_is_live find_ignition_channel get_state
ignition_is_live-false s one dead = record {
  at = λ j lt is_ign. elim (Option-cases (find_ignition_channel s.config)) [
    | inl e ↦ absurd (
        ground (
          arith,
          find_from-none output_count 0 (λ i. (channel s i).is_ignition) e j (omega arith)
              (omega arith),
        ))
    | inr (i, e) ↦
        let (_, in_range, is_ign', _) =
          find_from-some output_count 0 (λ i. (channel s i).is_ignition) {i = i} e in
        ground (arith, one.at i j (omega arith) lt is_ign' is_ign)
  ];
}

frame-force_off : (h : Bool) (k : ℕ) (s : Engine) → frame (force_off h k s) ≡ frame s
unfolding force_off
frame-force_off h k s = ground (arith, frame-set s k false local)

pub frame-force_off_on_lock : (s : Engine) → frame (force_off_on_lock s) ≡ frame s
unfolding force_off_on_lock
frame-force_off_on_lock s =
    for_range_frame frame (force_off s.hazard_active) (frame-force_off s.hazard_active) output_count
      0 s

roles-force_off : (h : Bool) (k : ℕ) (s : Engine) → SameRoles s (force_off h k s)
unfolding force_off
roles-force_off h k s = record { at = λ j lt. ground (arith, (roles-set s k false local).at j lt) }

set-off :
    (k j : ℕ) (t : Engine)
    → IgnitionOff t
    → k < output_count
    → j < output_count
    → (t.hazard_active ≡ true → (channel t k).hazard_member ≡ false)
    → let u = (set t k false local).1 in
      ((channel u j).commanded_on ≡ not (j == k) && (channel t j).commanded_on)
      × (u.hazard_active ≡ t.hazard_active)
unfolding switched set
set-off k j t off here lt spared =
    ground (arith, on-switch k false t here j lt, still-switch k false t here, off.at k here)

-- A round of the sweep puts its own channel out, unless the hazards run and the channel is a member.
force_off_lem :
    (k j : ℕ) (t : Engine)
    → IgnitionOff t
    → let u = force_off t.hazard_active k t in
      (get_state u j ≡ (
        if j == k
        then t.hazard_active && (channel t j).hazard_member && get_state t j
        else get_state t j))
      × (u.hazard_active ≡ t.hazard_active)
unfolding force_off get_state
force_off_lem k j t off = elim (Bool-cases (leb output_count k)) [
  | inl past ↦ ground arith
  | inr in_range ↦ elim (Bool-cases (leb output_count j)) [
    | inl past ↦ ground (arith, set-off k k t off)
    | inr in_range' ↦ ground (arith, set-off k j t off)
  ]
]

-- What the rounds of the sweep keep.
record Sweeping (s t : Engine) : Type 0 where
  same : SameRoles s t
  hazards : t.hazard_active ≡ s.hazard_active
  off : IgnitionOff t

module _ (s : Engine) where
  keep-force_off : (k : ℕ) (t : Engine) → Sweeping s t → Sweeping s (force_off t.hazard_active k t)
  unfolding get_state
  keep-force_off k t h = record {
    same = SameRoles-trans h.same (roles-force_off t.hazard_active k t);
    hazards = (force_off_lem k k t h.off).1 ∙ h.hazards;
    off = record {
      at = λ j lt is_ign. ground (
        arith,
        force_off_lem k j t h.off,
        h.off.at j lt,
        (roles-force_off t.hazard_active k t).at j lt,
      );
    };
  }

  keep : (k : ℕ) (t : Engine) → Sweeping s t → Sweeping s (force_off s.hazard_active k t)
  keep k t h = subst (λ b. Sweeping s (force_off b k t)) h.hazards (keep-force_off k t h)

  spared : ℕ → Bool → Bool
  spared j b = s.hazard_active && (channel s j).hazard_member && b

  round :
      (k j : ℕ) (t : Engine)
      → Sweeping s t
      → get_state (force_off s.hazard_active k t) j
        ≡ (if j == k then spared j (get_state t j) else get_state t j)
  unfolding get_state spared
  round k j t h =
      subst
        (λ b.
          get_state (force_off b k t) j
          ≡ (if j == k then spared j (get_state t j) else get_state t j))
        h.hazards (ground (arith, force_off_lem k j t h.off, h.hazards, h.same.at j))

  swept :
      (j : ℕ)
      → j < output_count
      → Sweeping s s
      → get_state (force_off_on_lock s) j ≡ spared j (get_state s j)
  unfolding force_off_on_lock
  swept j lt start =
      for_range_cell (Sweeping s) (λ k t. get_state t k) spared (force_off s.hazard_active) keep
        (λ k j t h ne. ground (arith, round k j t h)) (λ k t h. ground (arith, round k k t h))
        output_count 0 j s start (omega arith) (omega arith)

  -- With no ignition channel on, the sweep puts out every channel but the members of running hazards,
  -- which it leaves running as they are, and changes nothing that the rider configured.
  pub sweep_lem :
      IgnitionOff s
      → (j : ℕ) → j < output_count
      → let t = force_off_on_lock s in
        ((channel t j).commanded_on
          ≡ s.hazard_active && (channel s j).hazard_member && (channel s j).commanded_on)
        × (t.hazard_active ≡ s.hazard_active)
        × (roles (channel t j) ≡ roles (channel s j))
        × (frame t ≡ frame s)
  unfolding force_off_on_lock get_state spared
  sweep_lem off j lt =
      let start : Sweeping s s = record {
        same = record { at = λ j lt. refl };
        hazards = refl;
        off = off;
      } in
      let done =
        for_range_keeps (Sweeping s) (force_off s.hazard_active) keep output_count 0 s start in
      ground (arith, swept j lt start, done.hazards, done.same.at j lt, frame-force_off_on_lock s)
