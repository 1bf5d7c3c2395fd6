-- ===== src/Output/Hazards.antt =====
-- The hazard mode of firmware/components/core/mc_output.c.
use moto_ctrl.Base.{
  ℕ, Bool, true, false, not, ◌&&◌, ◌||◌, Option, none, some, ltb, ◌==◌, if◌then◌else◌, add32,
  update, for_range, any_from,
}
use moto_ctrl.Output.Types.{Config, Engine, channel, output_count}
use moto_ctrl.Output.Drive.{set_commanded_on_raw}
use moto_ctrl.Output.Parts.{is_turn, same_bit, set_deadline}

-- The body of the loop of `end_hazard_mode`.
unfoldable pub restore_member : Option ℕ → ℕ → ℕ → Engine → Engine
restore_member except now_ms ch eng =
    let cfg = channel eng ch in
    let prior = eng.hazard_saved_mask ch in
    let put_back =
      if same_bit cfg.commanded_on prior then eng else set_commanded_on_raw ch prior now_ms eng in
    let rearm = prior && is_turn cfg && ltb 0 eng.config.turn_auto_cancel_ms in
    if not cfg.hazard_member || elim except [ some k ↦ ch == k | none ↦ false ]
    then eng
    else set_deadline ch (if rearm then add32 now_ms eng.config.turn_auto_cancel_ms else 0) put_back

-- `end_hazard_mode`; an `except_channel` of -1 is `none`.
unfoldable pub end_hazard_mode : Option ℕ → ℕ → Engine → Engine
end_hazard_mode except now_ms eng =
    if eng.hazard_active
    then for_range output_count 0 (restore_member except now_ms)
        (record eng { hazard_active = false })
    else eng

-- The body of the loop of `mc_output_hazard_press` that takes the group over.
unfoldable pub take_over : ℕ → ℕ → Engine → Engine
take_over now_ms ch eng =
    let cfg = channel eng ch in
    let saved = record eng {
      hazard_saved_mask =
          if cfg.commanded_on then update eng.hazard_saved_mask ch true else eng.hazard_saved_mask;
    } in
    if cfg.hazard_member then set_deadline ch 0 (set_commanded_on_raw ch true now_ms saved) else eng

-- Whether the group has members, by which `mc_output_hazard_press` and MC_OP_HAZARD_PRESS begin.
unfoldable pub has_members : Config → Bool
has_members config = any_from output_count 0 (λ ch. (config.channels ch).hazard_member)

-- `mc_output_hazard_press`
unfoldable pub hazard_press : ℕ → Engine → Engine
hazard_press now_ms eng =
    if not (has_members eng.config)
    then eng
    else if eng.hazard_active
    then end_hazard_mode none now_ms eng
    else record (for_range output_count 0 (take_over now_ms)
        (record eng { hazard_saved_mask = λ _. false })) { hazard_active = true }
