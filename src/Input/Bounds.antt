-- ===== src/Input/Bounds.antt =====
-- The bounds that firmware/components/core/mc_input.c keeps whatever it is polled with.
use moto_ctrl.Base.{
  ℕ, ◌<◌, ◌≤◌, Bool, true, false, not, ◌&&◌, ◌||◌, List, [], ◌∷◌, Option, none, some, arith, leb,
  ◌==◌, if◌then◌else◌, for_range_keeps, if_cases, sub32, elapsed_at_least,
}
use moto_ctrl.Input.Types.{
  double_press, long_press, short_press, InputConfig, ComboDef, combo_zero, InputEngine,
  button_count, combo_max_len, queue_len,
}
use moto_ctrl.Input.Queue.{pop_event, set_config, init}
use moto_ctrl.Input.Matcher.{
  is_chord, put_button, put_combo, match_sequence, handle_sequence_press, scan_members, consume,
  fire_chord, match_chord, handle_chord_state,
}
use moto_ctrl.Input.Poll.{
  differs, pressed, release, debounce, fire_long, resolve_short, poll_button, poll,
}
use moto_ctrl.Input.Steps.{
  IsInBounds, put_button-IsInBounds, pop_event-IsInBounds, emit_combo-IsInBounds,
  match_sequence-IsInBounds, chord_flag-IsInBounds, consume-IsInBounds, emit_press-IsInBounds,
}

module _ (i : ℕ) (eng : InputEngine) (h : IsInBounds eng) where
  fire_chord-IsInBounds : (def : ComboDef) → IsInBounds (fire_chord def i eng)
  unfolding fire_chord
  fire_chord-IsInBounds def =
      let marked =
        for_range_keeps IsInBounds (consume def) (λ k e h'. consume-IsInBounds k e h' def)
          def.length 0 eng h in
      chord_flag-IsInBounds i _ (emit_combo-IsInBounds i _ marked) true

  scanned-IsInBounds :
      (scan : Option (ℕ × ℕ)) (def : ComboDef)
      → IsInBounds (elim scan [
        | none ↦ put_combo eng i (record (eng.combo_state i) { chord_fired = false })
        | some (min_start, max_start) ↦
            if not (eng.combo_state i).chord_fired && leb (sub32 max_start min_start) def.window_ms
            then fire_chord def i eng
            else eng
      ])
  scanned-IsInBounds none def = chord_flag-IsInBounds i eng h false
  scanned-IsInBounds (some (min_start, max_start)) def =
      if_cases IsInBounds
        (not (eng.combo_state i).chord_fired && leb (sub32 max_start min_start) def.window_ms)
        (fire_chord-IsInBounds def) h

  match_chord-IsInBounds : IsInBounds (match_chord i eng)
  unfolding match_chord
  match_chord-IsInBounds =
      let def = eng.config.combos i in
      if_cases IsInBounds (not (is_chord def.type) || def.length == 0) h
        (scanned-IsInBounds (scan_members def.length 0 def eng 0 0) def)

  release-IsInBounds : (now : ℕ) → IsInBounds (release eng i now)
  unfolding release
  release-IsInBounds now =
      let let_go =
        put_button-IsInBounds eng h i (record (eng.buttons i) { stable_state = false }) in
      if_cases IsInBounds _ let_go (
        if_cases IsInBounds _
          (put_button-IsInBounds _ (emit_press-IsInBounds i _ let_go double_press) i _)
          (put_button-IsInBounds _ let_go i _))

  debounce-IsInBounds : (raw : Bool) (now : ℕ) → IsInBounds (debounce eng i raw now)
  unfolding debounce
  debounce-IsInBounds raw now =
      let st = eng.buttons i in
      if_cases IsInBounds (differs raw st.raw_state) (put_button-IsInBounds eng h i _) (
        if_cases IsInBounds
          (differs st.raw_state st.stable_state
            && elapsed_at_least now st.raw_change_ms eng.config.timing.debounce_ms)
          (if_cases IsInBounds st.raw_state (put_button-IsInBounds eng h i (pressed st now))
            (release-IsInBounds now))
          h)

  fire_long-IsInBounds : (now : ℕ) → IsInBounds (fire_long eng i now)
  unfolding fire_long
  fire_long-IsInBounds now =
      if_cases IsInBounds _ (emit_press-IsInBounds i _ (put_button-IsInBounds eng h i _) long_press)
        h

handle_sequence_press-IsInBounds :
    (eng : InputEngine) (b now : ℕ) → IsInBounds eng → IsInBounds (handle_sequence_press eng b now)
unfolding handle_sequence_press
handle_sequence_press-IsInBounds eng b now h =
    for_range_keeps IsInBounds (match_sequence b now)
      (λ k e h'. match_sequence-IsInBounds k e h' b now) eng.config.combo_count 0 eng h

resolve_short-IsInBounds :
    (eng : InputEngine) (b now : ℕ) → IsInBounds eng → IsInBounds (resolve_short eng b now)
unfolding resolve_short
resolve_short-IsInBounds eng b now h =
    if_cases IsInBounds _
      (handle_sequence_press-IsInBounds _ b now
        (emit_press-IsInBounds b _ (put_button-IsInBounds eng h b _) short_press))
      h

poll-IsInBounds :
    (eng : InputEngine) (now : ℕ) (raw : ℕ → Bool) → IsInBounds eng → IsInBounds (poll eng now raw)
unfolding poll poll_button handle_chord_state
poll-IsInBounds eng now raw h =
    for_range_keeps IsInBounds match_chord match_chord-IsInBounds _ 0 _ (
      for_range_keeps IsInBounds (poll_button now raw)
        (λ b e h'.
          let calm = debounce-IsInBounds b e h' (raw b) now in
          resolve_short-IsInBounds _ b now (fire_long-IsInBounds b _ calm now))
        button_count 0 eng h)

set_config-IsInBounds :
    (eng : InputEngine) (config : InputConfig) → IsInBounds eng → IsInBounds (set_config eng config)
unfolding set_config
set_config-IsInBounds eng config h =
    for_range_keeps IsInBounds
      (λ b e. put_button e b (record (e.buttons b) { chord_consumed = false }))
      (λ b e h'. put_button-IsInBounds e h' b (record (e.buttons b) { chord_consumed = false }))
      button_count 0 (record eng { config = config; combo_state = λ _. combo_zero })
      (record {
        ring = record { few = h.ring.few; head = h.ring.head };
        progress = λ i. omega arith;
      })

-- What the platform does with the engine.
pub data InputOp : Type 0 where
  poll_at : ℕ → (ℕ → Bool) → InputOp
  take_event : InputOp
  reconfigure : InputConfig → InputOp

unfoldable pub step : InputOp → InputEngine → InputEngine
step (poll_at now raw) eng = poll eng now raw
step take_event eng = (pop_event eng).0
step (reconfigure config) eng = set_config eng config

unfoldable pub run : List InputOp → InputEngine → InputEngine
run [] eng = eng
run (op ∷ ops) eng = run ops (step op eng)

run_from-IsInBounds :
    (ops : List InputOp) (eng : InputEngine) → IsInBounds eng → IsInBounds (run ops eng)
unfolding run step
run_from-IsInBounds [] eng h = h
run_from-IsInBounds (poll_at now raw ∷ ops) eng h =
    run_from-IsInBounds ops (poll eng now raw) (poll-IsInBounds eng now raw h)
run_from-IsInBounds (take_event ∷ ops) eng h =
    run_from-IsInBounds ops (pop_event eng).0 (pop_event-IsInBounds eng h)
run_from-IsInBounds (reconfigure config ∷ ops) eng h =
    run_from-IsInBounds ops (set_config eng config) (set_config-IsInBounds eng config h)

-- The indices that the engine keeps are inside their arrays.
pub record IsInArrays (eng : InputEngine) : Type 0 where
  pub few : eng.event_count ≤ queue_len
  pub head : eng.event_head < queue_len
  pub next :
      (i : ℕ)
      → (eng.config.combos i).length ≤ combo_max_len
      → (eng.combo_state i).progress < combo_max_len
  pub pending :
      (i : ℕ)
      → 0 < (eng.config.combos i).length
      → (eng.combo_state i).progress < (eng.config.combos i).length

-- Whatever the engine is polled with, and whenever events are taken or the configuration is changed,
-- the queue never holds more than sixteen events and its head is a slot of it; the progress of a
-- combination of at most ten buttons is an index of its array of ten, and that of a combination that
-- has a button is less than its length.
pub run-IsInArrays :
    (config : InputConfig) (ops : List InputOp) → IsInArrays (run ops (init config))
run-IsInArrays config ops =
    let h = run_from-IsInBounds ops (init config) (
      unfold init in
      record {
        ring = record { few = omega arith; head = omega arith };
        progress = λ i. omega arith;
      }) in
    record {
      few = h.ring.few;
      head = h.ring.head;
      next = λ i short. omega (arith, h.progress i);
      pending = λ i some_in. omega (arith, h.progress i);
    }
