-- ===== src/Output/Clock.antt =====
-- The tick of firmware/components/core/mc_output.c and the setters that other modules call.
use moto_ctrl.Base.{ℕ, Bool, false, not, ◌&&◌, ◌==◌, if◌then◌else◌, not_before32, for_range}
use moto_ctrl.Output.Types.{Engine, channel, output_count}
use moto_ctrl.Output.Drive.{apply_hal_state, set_commanded_on_raw}
use moto_ctrl.Output.Parts.{same_bit, set_deadline}

-- The body of the first loop of `mc_output_tick`.
unfoldable pub expire : ℕ → ℕ → Engine → Engine
expire now_ms ch eng =
    let deadline = eng.turn_auto_cancel_deadline_ms ch in
    if not (deadline == 0) && not_before32 now_ms deadline
    then set_commanded_on_raw ch false now_ms (set_deadline ch 0 eng)
    else eng

-- `mc_output_tick`
unfoldable pub tick : ℕ → Engine → Engine
tick now_ms eng =
    for_range output_count 0 (apply_hal_state now_ms)
      (for_range output_count 0 (expire now_ms) (record eng { last_tick_ms = now_ms }))

-- The body of the loop of `mc_output_set_engine_running`.
unfoldable pub cut_starter : ℕ → ℕ → Engine → Engine
cut_starter now_ms ch eng =
    if (channel eng ch).is_starter && (channel eng ch).commanded_on
    then set_commanded_on_raw ch false now_ms eng
    else eng

-- `mc_output_set_engine_running`
unfoldable pub set_engine_running : Bool → Engine → Engine
set_engine_running running eng =
    let noted = record eng { engine_running = running } in
    if running && not eng.engine_running
    then for_range output_count 0 (cut_starter eng.last_tick_ms) noted
    else noted

-- `mc_output_set_interlock_engaged`, `mc_output_set_immobilized`
unfoldable pub set_interlock_engaged : Bool → Engine → Engine
set_interlock_engaged engaged eng = record eng { interlock_engaged = engaged }

unfoldable pub set_immobilized : Bool → Engine → Engine
set_immobilized immobilized eng = record eng { immobilized = immobilized }

-- `mc_output_set_lv_cutoff`
unfoldable pub set_lv_cutoff : Bool → Engine → Engine
set_lv_cutoff cutoff eng =
    if same_bit eng.lv_cutoff cutoff
    then eng
    else for_range output_count 0 (apply_hal_state eng.last_tick_ms)
        (record eng { lv_cutoff = cutoff })
