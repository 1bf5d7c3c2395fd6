-- ===== src/Output/Tests.antt =====
-- The theorems on the output engine, at work on a motorcycle.
use moto_ctrl.Base.{ℕ, List, not, ◌≡◌, ◌↔◌, refl, true, false, [], ◌∷◌, arith, ◌==◌}
use moto_ctrl.Output.Types.{starter_remote_blocked, Engine, local, remote, channel}
use moto_ctrl.Output.Parts.{validate_starter_command}
use moto_ctrl.Output.Command.{set}
use moto_ctrl.Output.Hazards.{hazard_press}
use moto_ctrl.Output.Settings.{config_validate, no_flags}
use moto_ctrl.Output.Frames.{frame}
use moto_ctrl.Output.Trace.{command, engine, interlock, run, step}
use moto_ctrl.Output.Starter.{
  StarterApart, StarterSafe, CrankedBy, run-StarterSafe, step-cranks, set-cranks_companion,
}
use moto_ctrl.Output.WellFormed.{IsWellFormed, validate_iff}
use moto_ctrl.Output.AutoCancel.{ticks, any_past, all_near, ticks-cancel}
use moto_ctrl.Output.Borrow.{hazard_press-twice}
use moto_ctrl.Output.Exclusion.{set-commands}
use moto_ctrl.Output.Immobilized.{step-dark}
use moto_ctrl.Output.Bike.{bike_channel, bike_config, bike, with_channel}

bike-StarterApart : StarterApart bike
bike-StarterApart = record { at = λ j lt is. ground arith }

bike-StarterSafe : StarterSafe bike
bike-StarterSafe = record { at = λ j lt is running. ground arith }

run-StarterSafe_example :
    StarterSafe
      (run (interlock true ∷ command 1 true local ∷ engine true ∷ command 1 true local ∷ []) bike)
run-StarterSafe_example =
    run-StarterSafe
      (interlock true ∷ command 1 true local ∷ engine true ∷ command 1 true local ∷ []) bike
      bike-StarterApart bike-StarterSafe

abbrev geared : Engine
geared = record bike { interlock_engaged = true }

geared-StarterApart : StarterApart geared
geared-StarterApart = record { at = λ j lt is. ground arith }

step-cranks_example : CrankedBy geared (command 1 true local)
unfolding step set validate_starter_command
step-cranks_example =
    step-cranks geared geared-StarterApart 1 (omega arith) refl refl (command 1 true local)
      (set-commands geared 1 true local refl)

validate_iff_example : (config_validate bike_config ≡ no_flags) ↔ IsWellFormed bike_config
validate_iff_example = validate_iff bike_config

-- A tick on the way, one just before the deadline, and two from it on.
abbrev riding_times : List ℕ
riding_times = 15000 ∷ 30999 ∷ 31000 ∷ 40000 ∷ []

ticks-cancel_example :
    (channel (ticks riding_times (set bike 4 true local).1) 4).commanded_on
    ≡ not (any_past 1000 30000 riding_times)
unfolding set all_near
ticks-cancel_example =
    ticks-cancel bike 4 local riding_times refl refl (omega arith) (omega arith) (omega arith)
      (omega arith) refl

hazard_press-twice_example :
    let t = hazard_press 3000 (hazard_press 2000 bike) in
    (channel t 4 ≡ channel bike 4) × (t.hazard_active ≡ false) × (frame t ≡ frame bike)
hazard_press-twice_example = hazard_press-twice 2000 3000 bike 4 refl (omega arith)

-- The left indicator runs.
abbrev turning : Engine
turning = with_channel 4 (record (bike_channel 4) { commanded_on = true }) bike

-- The bike is locked.
abbrev held : Engine
held = record bike { immobilized = true }

step-dark_example : (channel (step (command 4 true remote) held) 4).commanded_on ≡ false
step-dark_example =
    step-dark held refl refl 4 (omega arith) refl (command 4 true remote) (record {})

-- The starter comes on with the ignition.
abbrev wired : Engine
wired =
    with_channel 1 (record (bike_channel 1) { on_with_ignition = true })
      (record bike { engine_running = true })

set-cranks_companion_example :
    ((channel (set wired 0 true remote).1 1).commanded_on ≡ true)
    × (set wired 1 true remote ≡ (starter_remote_blocked, wired))
    × ((set wired 1 true local).0 ≡ validate_starter_command wired local)
set-cranks_companion_example =
    set-cranks_companion wired 0 1 remote (omega arith) (omega arith) refl refl refl refl refl refl
      refl

-- The main beam is lit as a flash.
abbrev flashing : Engine
flashing = with_channel 3 (record (bike_channel 3) { commanded_on = true }) bike

-- The clock is about to wrap.
abbrev late : Engine
late = record bike { last_tick_ms = 4294937296 }

-- The hazards run on the locked bike, the left indicator having been lit before they started.
abbrev flagged : Engine
flagged = record turning {
  immobilized = true;
  hazard_active = true;
  hazard_saved_mask = λ j. j == 4;
}
