-- ===== src/Input/Poll.antt =====
-- `mc_input_poll` of firmware/components/core/mc_input.c, and what the platform asks of the engine.
use moto_ctrl.Base.{
  ℕ, Bool, true, false, not, ◌&&◌, ◌||◌, ltb, leb, ◌==◌, if◌then◌else◌, elapsed_at_least, add32,
  any_from, for_range,
}
use moto_ctrl.Input.Types.{
  short_press, long_press, double_press, Button, InputEngine, button_count, combo_max_defs,
}
use moto_ctrl.Input.Matcher.{
  put_button, is_chord, emit_press, handle_sequence_press, handle_chord_state,
}

abbrev pub differs : Bool → Bool → Bool
differs true b = not b
differs false b = b

-- A debounced press-down.
abbrev pub pressed : Button → ℕ → Button
pressed st now = record st {
  stable_state = true;
  press_start_ms = now;
  long_press_fired = false;
  chord_consumed = false;
}

-- A debounced release of the button `b`.
unfoldable pub release : InputEngine → ℕ → ℕ → InputEngine
release eng b now =
    let st = record (eng.buttons b) { stable_state = false } in
    let let_go = put_button eng b st in
    if st.long_press_fired
    then let_go
    else if st.pending_double
        && not (
            elapsed_at_least now st.last_release_ms (add32 eng.config.timing.double_press_gap_ms 1))
    then (let sent = emit_press let_go b double_press in
        put_button sent b (record (sent.buttons b) { pending_double = false }))
    else put_button let_go b (record st { pending_double = true; last_release_ms = now })

-- The debouncing of one button.
unfoldable pub debounce : InputEngine → ℕ → Bool → ℕ → InputEngine
debounce eng b raw now =
    let st = eng.buttons b in
    if differs raw st.raw_state
    then put_button eng b (record st { raw_state = raw; raw_change_ms = now })
    else if differs st.raw_state st.stable_state
        && elapsed_at_least now st.raw_change_ms eng.config.timing.debounce_ms
    then (if st.raw_state then put_button eng b (pressed st now) else release eng b now)
    else eng

-- The long press, as soon as its threshold is crossed.
unfoldable pub fire_long : InputEngine → ℕ → ℕ → InputEngine
fire_long eng b now =
    let st = eng.buttons b in
    if st.stable_state
      && not st.long_press_fired
      && elapsed_at_least now st.press_start_ms eng.config.timing.long_press_ms
    then emit_press
        (put_button eng b (record st { long_press_fired = true; pending_double = false })) b
        long_press
    else eng

-- A pending press without a partner becomes a short press, and feeds the sequences.
unfoldable pub resolve_short : InputEngine → ℕ → ℕ → InputEngine
resolve_short eng b now =
    let st = eng.buttons b in
    if st.pending_double
      && elapsed_at_least now st.last_release_ms eng.config.timing.double_press_gap_ms
    then handle_sequence_press
        (emit_press (put_button eng b (record st { pending_double = false })) b short_press) b now
    else eng

-- One round of the loop of `mc_input_poll`.
unfoldable pub poll_button : ℕ → (ℕ → Bool) → ℕ → InputEngine → InputEngine
poll_button now raw_pressed b eng =
    resolve_short (fire_long (debounce eng b (raw_pressed b) now) b now) b now

-- `mc_input_poll`
unfoldable pub poll : InputEngine → ℕ → (ℕ → Bool) → InputEngine
poll eng now raw_pressed =
    handle_chord_state (for_range button_count 0 (poll_button now raw_pressed) eng)

-- `mc_input_button_level`
unfoldable pub button_level : InputEngine → ℕ → Bool
button_level eng button =
    if leb button_count button then false else (eng.buttons button).stable_state

-- `mc_input_hold_active`
unfoldable pub hold_active : InputEngine → ℕ → Bool
hold_active eng button =
    if leb button_count button
    then false
    else (eng.buttons button).stable_state && (eng.buttons button).long_press_fired

-- `mc_input_chord_held`
unfoldable pub chord_held : InputEngine → ℕ → Bool
chord_held eng combo_index =
    let def = eng.config.combos combo_index in
    if leb combo_max_defs combo_index || leb eng.config.combo_count combo_index
    then false
    else if not (is_chord def.type) || def.length == 0
    then false
    else not (
        any_from def.length 0
          (λ k. leb button_count (def.buttons k) || not (eng.buttons (def.buttons k)).stable_state))

-- `mc_input_activity_pending`
unfoldable pub activity_pending : InputEngine → Bool
activity_pending eng =
    ltb 0 eng.event_count
    || any_from button_count 0 (λ i.
      (eng.buttons i).raw_state || (eng.buttons i).stable_state || (eng.buttons i).pending_double)
    || any_from eng.config.combo_count 0
        (λ i. ltb 0 (eng.combo_state i).progress || (eng.combo_state i).chord_fired)
