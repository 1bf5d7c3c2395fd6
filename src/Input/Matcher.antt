-- ===== src/Input/Matcher.antt =====
-- The combo matcher of firmware/components/core/mc_input.c.
use moto_ctrl.Base.{
  ℕ, zero, suc, ◌+◌, Bool, true, false, not, ◌&&◌, ◌||◌, Option, none, some, ltb, leb, ◌==◌,
  if◌then◌else◌, sub32, not_before32, elapsed_at_least, update, for_range,
}
use moto_ctrl.Input.Types.{
  PressType, chord, sequence, press, combo, ComboType, ComboDef, Button, ComboState, InputEngine,
  button_count,
}
use moto_ctrl.Input.Queue.{enqueue}

-- Writes through `st = &eng->buttons[b]` and `st = &eng->combo_state[i]`.
abbrev pub put_button : InputEngine → ℕ → Button → InputEngine
put_button eng b st = record eng { buttons = update eng.buttons b st }

abbrev pub put_combo : InputEngine → ℕ → ComboState → InputEngine
put_combo eng i st = record eng { combo_state = update eng.combo_state i st }

abbrev pub is_sequence : ComboType → Bool
is_sequence chord = false
is_sequence sequence = true

abbrev pub is_chord : ComboType → Bool
is_chord chord = true
is_chord sequence = false

-- `emit_press`
unfoldable pub emit_press : InputEngine → ℕ → PressType → InputEngine
emit_press eng button type = enqueue eng (press button type (eng.buttons button).chord_consumed)

-- `emit_combo`
unfoldable pub emit_combo : InputEngine → ℕ → InputEngine
emit_combo eng combo_index = enqueue eng (combo combo_index (eng.config.combos combo_index).actions)

-- One round of `handle_sequence_press`, past its `continue`: `progress` is what the timeout leaves.
unfoldable pub advance : ComboDef → ℕ → ℕ → ℕ → ℕ → InputEngine → InputEngine
advance def button now i progress eng =
    let st = record (eng.combo_state i) { progress = progress } in
    if def.buttons progress == button
    then (let started = if progress == 0 then now else st.start_ms in
        if leb def.length (progress + 1)
        then put_combo
            (emit_combo
              (put_combo eng i (record st { progress = progress + 1; start_ms = started })) i)
            i (record st { progress = 0; start_ms = started })
        else put_combo eng i (record st { progress = progress + 1; start_ms = started }))
    else if def.buttons 0 == button
    then put_combo eng i (record st { progress = 1; start_ms = now })
    else put_combo eng i (record st { progress = 0 })

-- What the timeout leaves of `st->progress`.
unfoldable pub timed_progress : ComboDef → ComboState → ℕ → ℕ
timed_progress def st now =
    if ltb 0 st.progress && elapsed_at_least now st.start_ms def.window_ms then 0 else st.progress

-- One round of `handle_sequence_press`.
unfoldable pub match_sequence : ℕ → ℕ → ℕ → InputEngine → InputEngine
match_sequence button now i eng =
    let def = eng.config.combos i in
    if not (is_sequence def.type) || def.length == 0
    then eng
    else advance def button now i (timed_progress def (eng.combo_state i) now) eng

-- `handle_sequence_press`
unfoldable pub handle_sequence_press : InputEngine → ℕ → ℕ → InputEngine
handle_sequence_press eng button now =
    for_range eng.config.combo_count 0 (match_sequence button now) eng

-- The loop of `handle_chord_state` over the members: `none` where `all_down` becomes false, else the
-- least and the greatest press time.
unfoldable pub scan_members : ℕ → ℕ → ComboDef → InputEngine → ℕ → ℕ → Option (ℕ × ℕ)
scan_members zero k def eng min_start max_start = some (min_start, max_start)
scan_members (suc n) k def eng min_start max_start =
    let btn = def.buttons k in
    let start = (eng.buttons btn).press_start_ms in
    let rest =
      scan_members n (suc k) def eng
        (if k == 0 || not (not_before32 start min_start) then start else min_start)
        (if k == 0 || (not_before32 start max_start && ltb 0 (sub32 start max_start))
          then start
          else max_start) in
    if leb button_count btn || not (eng.buttons btn).stable_state then none else rest

-- `eng->buttons[btn].chord_consumed = true` for one member.
unfoldable pub consume : ComboDef → ℕ → InputEngine → InputEngine
consume def k eng =
    let btn = def.buttons k in
    if ltb btn button_count
    then put_button eng btn (record (eng.buttons btn) { chord_consumed = true })
    else eng

-- The chord fires: its members are marked before the event goes out.
unfoldable pub fire_chord : ComboDef → ℕ → InputEngine → InputEngine
fire_chord def i eng =
    let fired = emit_combo (for_range def.length 0 (consume def) eng) i in
    put_combo fired i (record (fired.combo_state i) { chord_fired = true })

-- One round of `handle_chord_state`.
unfoldable pub match_chord : ℕ → InputEngine → InputEngine
match_chord i eng =
    let def = eng.config.combos i in
    if not (is_chord def.type) || def.length == 0
    then eng
    else elim (scan_members def.length 0 def eng 0 0) [
      | none ↦ put_combo eng i (record (eng.combo_state i) { chord_fired = false })
      | some (min_start, max_start) ↦
          if not (eng.combo_state i).chord_fired && leb (sub32 max_start min_start) def.window_ms
          then fire_chord def i eng
          else eng
    ]

-- `handle_chord_state`
unfoldable pub handle_chord_state : InputEngine → InputEngine
handle_chord_state eng = for_range eng.config.combo_count 0 match_chord eng
