-- ===== src/Output/Command.antt =====
-- Switching a channel: `mc_output_set` and `mc_output_alternate_press` of
-- firmware/components/core/mc_output.c.
use moto_ctrl.Base.{
  ℕ, pos, negsuc, Bool, true, false, not, ◌&&◌, ◌||◌, none, some, ltb, leb, ◌==◌, if◌then◌else◌,
  add32, for_range,
}
use moto_ctrl.Output.Types.{
  Source, Result, ok, bad_channel, immobilized_refusal, Engine, channel, output_count,
}
use moto_ctrl.Output.Drive.{set_commanded_on_raw}
use moto_ctrl.Output.Parts.{
  is_turn, opposite_of, same_bit, set_deadline, find_indicator_channel, validate_starter_command,
}
use moto_ctrl.Output.Hazards.{end_hazard_mode}

-- The body of the loop of `apply_ignition_on`.
unfoldable pub light_companion : ℕ → ℕ → Engine → Engine
light_companion now_ms ch eng =
    let cfg = channel eng ch in
    if not cfg.on_with_ignition || cfg.is_ignition || cfg.commanded_on
    then eng
    else set_deadline ch 0 (set_commanded_on_raw ch true now_ms eng)

-- `apply_ignition_on`
unfoldable pub apply_ignition_on : ℕ → Engine → Engine
apply_ignition_on now_ms = for_range output_count 0 (light_companion now_ms)

-- The body of the loop of `apply_ignition_off`.
unfoldable pub darken : ℕ → ℕ → Engine → Engine
darken now_ms ch eng =
    let cfg = channel eng ch in
    if cfg.is_ignition
    then eng
    else set_deadline ch 0
        (if cfg.commanded_on then set_commanded_on_raw ch false now_ms eng else eng)

-- `apply_ignition_off`
unfoldable pub apply_ignition_off : ℕ → Engine → Engine
apply_ignition_off now_ms eng =
    for_range output_count 0 (darken now_ms) (record eng { hazard_active = false })

-- The parts of `mc_output_set`, in the order in which it runs them.
unfoldable pub leave_hazards : ℕ → Engine → Engine
leave_hazards ch eng =
    if (channel eng ch).hazard_member then end_hazard_mode (some ch) eng.last_tick_ms eng else eng

unfoldable pub cancel_opposite : ℕ → Bool → Engine → Engine
cancel_opposite ch on eng =
    let cfg = channel eng ch in
    let opposite = find_indicator_channel eng.config (opposite_of cfg.indicator) in
    if is_turn cfg && on
    then elim opposite [
      | none ↦ eng
      | some o ↦
          if not (o == ch) && (channel eng o).commanded_on
          then set_deadline o 0 (set_commanded_on_raw o false eng.last_tick_ms eng)
          else eng
    ]
    else eng

unfoldable pub cancel_partner : ℕ → Bool → Engine → Engine
cancel_partner ch on eng =
    if on
    then elim (channel eng ch).alternate_channel [
      | negsuc _ ↦ eng
      | pos p ↦
          if ltb p output_count && not (p == ch) && (channel eng p).commanded_on
          then set_commanded_on_raw p false eng.last_tick_ms eng
          else eng
    ]
    else eng

unfoldable pub command_channel : ℕ → Bool → Engine → Engine
command_channel ch on eng =
    let done = set_commanded_on_raw ch on eng.last_tick_ms eng in
    let arm = on && ltb 0 eng.config.turn_auto_cancel_ms in
    if is_turn (channel eng ch)
    then set_deadline ch (if arm then add32 eng.last_tick_ms eng.config.turn_auto_cancel_ms else 0)
        done
    else done

unfoldable pub ignition_edge : ℕ → Bool → Bool → Engine → Engine
ignition_edge ch was_on on eng =
    if (channel eng ch).is_ignition && not (same_bit was_on on)
    then if on
      then apply_ignition_on eng.last_tick_ms eng
      else apply_ignition_off eng.last_tick_ms eng
    else eng

-- What `mc_output_set` does once its guards have passed.
unfoldable pub switch : ℕ → Bool → Engine → Engine
switch ch on eng =
    let settled = cancel_partner ch on (cancel_opposite ch on (leave_hazards ch eng)) in
    ignition_edge ch (channel settled ch).commanded_on on (command_channel ch on settled)

-- `mc_output_set`
unfoldable pub set : Engine → ℕ → Bool → Source → Result × Engine
set eng ch on source =
    if leb output_count ch
    then (bad_channel, eng)
    else if on && eng.immobilized
    then (immobilized_refusal, eng)
    else elim (if on && (channel eng ch).is_starter
        then validate_starter_command eng source
        else ok) [ ok ↦ (ok, switch ch on eng) | refusal ↦ (refusal, eng) ]

-- `mc_output_alternate_press`
unfoldable pub alternate_press : Engine → ℕ → Source → Result × Engine
alternate_press eng ch source =
    if leb output_count ch then (bad_channel, eng) else elim (channel eng ch).alternate_channel [
      | negsuc _ ↦ (bad_channel, eng)
      | pos p ↦
          if leb output_count p || p == ch
          then (bad_channel, eng)
          else set eng (if (channel eng ch).commanded_on then p else ch) true source
    ]
