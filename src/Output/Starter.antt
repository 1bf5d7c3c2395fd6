-- ===== src/Output/Starter.antt =====
-- The starter never cranks a running engine, where no starter comes on with the ignition or joins the
-- hazards, and what a starter that does so escapes (firmware/components/core/mc_output.c).
use moto_ctrl.Base.{
  ℕ, ◌<◌, ◌≡◌, ap, Bool, true, false, List, [], ◌∷◌, Bool-cases, none, inl, inr, if◌then◌else◌,
  arith,
}
use moto_ctrl.Output.Types.{
  Source, local, remote, Result, starter_remote_blocked, Engine, channel, output_count,
}
use moto_ctrl.Output.Parts.{is_assigned, validate_starter_command}
use moto_ctrl.Output.Hazards.{has_members, hazard_press}
use moto_ctrl.Output.Command.{set, alternate_press}
use moto_ctrl.Output.Clock.{set_interlock_engaged, set_immobilized}
use moto_ctrl.Output.Frames.{still-end_hazard_mode, cell-end_hazard_mode}
use moto_ctrl.Output.Rounds.{still-start, cell-start}
use moto_ctrl.Output.Switch.{SameRoles, switched, on-switch, still-switch, roles-switch}
use moto_ctrl.Output.Guards.{set-cases, alternate_press-cases}
use moto_ctrl.Output.Borrow.{hazard_press-stop, hazard_press-empty}
use moto_ctrl.Output.Trace.{
  Op, command, alternate, press_hazards, pass_time, engine, interlock, immobilize, cutoff, restore,
  step, run, cell-tick, cell-restore_from_config, cell-set_lv_cutoff, cell-set_engine_running,
  engine_running-set_engine_running, still-tick, still-restore_from_config, still-set_lv_cutoff,
  roles-step,
}

-- No starter comes on with the ignition or joins the hazards.
pub record StarterApart (s : Engine) : Type 0 where
  pub at :
      (j : ℕ)
      → j < output_count
      → (channel s j).is_starter ≡ true
      → ((channel s j).on_with_ignition ≡ false) × ((channel s j).hazard_member ≡ false)

-- While the engine runs, every starter is off.
pub record StarterSafe (s : Engine) : Type 0 where
  pub at :
      (j : ℕ)
      → j < output_count
      → (channel s j).is_starter ≡ true
      → s.engine_running ≡ true
      → (channel s j).commanded_on ≡ false

StarterApart-SameRoles : {s t : Engine} → SameRoles s t → StarterApart s → StarterApart t
StarterApart-SameRoles same apart = record {
  at = λ j lt h. ground (arith, same.at j lt, apart.at j lt);
}

module _ (s : Engine) (apart : StarterApart s) (safe : StarterSafe s) where
  set-StarterSafe : (ch : ℕ) (on : Bool) (src : Source) → StarterSafe (set s ch on src).1
  unfolding switched
  set-StarterSafe ch on src = elim (set-cases s ch on src) [
    | inl (_, e) ↦ rw e safe
    | inr (_, e, ok) ↦ rw e (record {
      at = λ j lt h r. ground (
        arith,
        on-switch ch on s ok.in_range j lt,
        still-switch ch on s ok.in_range,
        (roles-switch ch on s).at j lt,
        ok.starter_stopped,
        apart.at j lt,
        safe.at j lt,
      );
    })
  ]

  alternate_press-StarterSafe : (ch : ℕ) (src : Source) → StarterSafe (alternate_press s ch src).1
  alternate_press-StarterSafe ch src = elim (alternate_press-cases s ch src) [
    | inl (_, e) ↦ rw e safe
    | inr (p, _, _, _, _, e) ↦ rw e (set-StarterSafe _ true src)
  ]

  hazard_press-StarterSafe : (now : ℕ) → StarterSafe (hazard_press now s)
  hazard_press-StarterSafe now = elim (Bool-cases (has_members s.config)) [
    | inr none_in ↦ rw (hazard_press-empty now s none_in) safe
    | inl some_in ↦ elim (Bool-cases s.hazard_active) [
      | inl going ↦ record {
        at = λ j lt h r. ground (
          arith,
          hazard_press-stop now s some_in going,
          cell-end_hazard_mode none now s j lt,
          still-end_hazard_mode none now s,
          apart.at j lt,
          safe.at j lt,
        );
      }
      | inr idle ↦ record {
        at = λ j lt h r. ground (
          arith,
          cell-start now s some_in idle j lt,
          still-start now s some_in idle,
          apart.at j lt,
          safe.at j lt,
        );
      }
    ]
  ]

  step-StarterSafe : (op : Op) → StarterSafe (step op s)
  unfolding step set_interlock_engaged set_immobilized
  step-StarterSafe (command ch on src) = set-StarterSafe ch on src
  step-StarterSafe (alternate ch src) = alternate_press-StarterSafe ch src
  step-StarterSafe (press_hazards now) = hazard_press-StarterSafe now
  step-StarterSafe (pass_time now) = record {
    at = λ j lt h r. ground (arith, cell-tick now s j lt, still-tick now s, safe.at j lt);
  }
  step-StarterSafe (engine running) = record {
    at = λ j lt h r. ground (
      arith,
      cell-set_engine_running 0 s j lt running,
      engine_running-set_engine_running running s,
      safe.at j lt,
    );
  }
  step-StarterSafe (interlock engaged) = record { at = safe.at }
  step-StarterSafe (immobilize on) = record { at = safe.at }
  step-StarterSafe (cutoff on) = record {
    at = λ j lt h r.
        ground (arith, cell-set_lv_cutoff 0 s j lt on, still-set_lv_cutoff on s, safe.at j lt);
  }
  step-StarterSafe restore = record {
    at = λ j lt h r.
        ground
          (arith, cell-restore_from_config 0 s j lt, still-restore_from_config s, safe.at j lt);
  }

-- Where no starter is configured to come on with the ignition or to join the hazards, no sequence of
-- requests, from any module and with any timing, leaves a starter commanded on while the engine
-- runs, if it was not so at first.
pub run-StarterSafe :
    (ops : List Op) (s : Engine) → StarterApart s → StarterSafe s → StarterSafe (run ops s)
unfolding run
run-StarterSafe [] s apart safe = safe
run-StarterSafe (op ∷ ops) s apart safe =
    run-StarterSafe ops (step op s) (StarterApart-SameRoles (roles-step op s) apart)
      (step-StarterSafe s apart safe op)

-- The request is a local command.
abbrev pub IsLocal : Op → Type 0
IsLocal (command ch on src) = src ≡ local
IsLocal (alternate ch src) = src ≡ local
IsLocal _ = ⊥

pub record CrankedBy (s : Engine) (op : Op) : Type 0 where
  pub stopped : s.engine_running ≡ false
  pub mobile : s.immobilized ≡ false
  pub is_local : IsLocal op
  pub interlocked : is_assigned s.config.starter_interlock_input ≡ true → s.interlock_engaged ≡ true

module _ (s : Engine) (apart : StarterApart s) (j : ℕ) (lt : j < output_count)
    (starter : (channel s j).is_starter ≡ true) (off : (channel s j).commanded_on ≡ false) where
  set-cranks :
      (ch : ℕ) (on : Bool) (src : Source)
      → (channel (set s ch on src).1 j).commanded_on ≡ true
      → CrankedBy s (command ch on src)
  unfolding switched
  set-cranks ch on src lit = elim (set-cases s ch on src) [
    | inl (_, e) ↦ cc (ap (λ (t : Engine). (channel t j).commanded_on) e)
    | inr (_, e, ok) ↦ ground (
      arith,
      ap (λ (t : Engine). (channel t j).commanded_on) e,
      on-switch ch on s ok.in_range j lt,
      ok.mobile,
      ok.starter_local,
      ok.starter_stopped,
      ok.starter_interlocked,
      apart.at j lt,
    )
  ]

  alternate_press-cranks :
      (ch : ℕ) (src : Source)
      → (channel (alternate_press s ch src).1 j).commanded_on ≡ true
      → CrankedBy s (alternate ch src)
  alternate_press-cranks ch src lit = elim (alternate_press-cases s ch src) [
    | inl (_, e) ↦ cc (ap (λ (t : Engine). (channel t j).commanded_on) e)
    | inr (p, _, _, _, _, e) ↦
        let by : CrankedBy s (command (if (channel s ch).commanded_on then p else ch) true src) =
          set-cranks _ true src
            (rw (ap (λ (r : Result × Engine). (channel r.1 j).commanded_on) e) at lit) in
        record {
          stopped = by.stopped;
          mobile = by.mobile;
          is_local = by.is_local;
          interlocked = by.interlocked;
        }
  ]

  hazard_press-cranks_none : (now : ℕ) → (channel (hazard_press now s) j).commanded_on ≡ false
  hazard_press-cranks_none now = elim (Bool-cases (has_members s.config)) [
    | inr none_in ↦ rw (hazard_press-empty now s none_in) off
    | inl some_in ↦ elim (Bool-cases s.hazard_active) [
      | inl going ↦ ground (
        arith,
        hazard_press-stop now s some_in going,
        cell-end_hazard_mode none now s j lt,
        apart.at j lt,
      )
      | inr idle ↦ ground (arith, cell-start now s some_in idle j lt, apart.at j lt)
    ]
  ]

  -- Where no starter joins the hazards or comes on with the ignition, the only request that turns a
  -- starter on is a local command, with the engine stopped, the bike not immobilized and a
  -- configured interlock engaged.
  pub step-cranks : (op : Op) → (channel (step op s) j).commanded_on ≡ true → CrankedBy s op
  unfolding step set_interlock_engaged set_immobilized
  step-cranks (command ch on src) lit = set-cranks ch on src lit
  step-cranks (alternate ch src) lit = alternate_press-cranks ch src lit
  step-cranks (press_hazards now) lit = absurd (ground (arith, hazard_press-cranks_none now))
  step-cranks (pass_time now) lit = absurd (ground (arith, cell-tick now s j lt))
  step-cranks (engine running) lit =
      absurd (ground (arith, cell-set_engine_running 0 s j lt running))
  step-cranks (cutoff on) lit = absurd (ground (arith, cell-set_lv_cutoff 0 s j lt on))
  step-cranks restore lit = absurd (ground (arith, cell-restore_from_config 0 s j lt))
  step-cranks (interlock engaged) lit = cc
  step-cranks (immobilize on) lit = cc

-- On a bike that is not immobilized, switching on an ignition that was off, remotely or not, turns on a
-- starter on another channel that is flagged to come on with it, whatever the engine and the interlock
-- are; a remote command to that starter itself is refused and changes nothing, and a local one has the
-- result of `validate_starter_command`. The ignition is not a starter, nor the starter an ignition.
pub set-cranks_companion :
    (s : Engine) (ign j : ℕ) (src : Source)
    → ign < output_count
    → j < output_count
    → (channel s ign).is_ignition ≡ true
    → (channel s ign).is_starter ≡ false
    → (channel s ign).commanded_on ≡ false
    → s.immobilized ≡ false
    → (channel s j).is_starter ≡ true
    → (channel s j).is_ignition ≡ false
    → (channel s j).on_with_ignition ≡ true
    → ((channel (set s ign true src).1 j).commanded_on ≡ true)
      × (set s j true remote ≡ (starter_remote_blocked, s))
      × ((set s j true local).0 ≡ validate_starter_command s local)
unfolding switched set validate_starter_command
set-cranks_companion s ign j src here lt is_ign ign_only off mobile starter apart companion =
    (ground (arith, on-switch ign true s here j lt), ground arith, ground arith)
