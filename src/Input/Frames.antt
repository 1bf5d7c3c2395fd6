-- ===== src/Input/Frames.antt =====
-- What the parts of firmware/components/core/mc_input.c leave alone.
use moto_ctrl.Base.{ℕ, ◌≡◌, refl, ap, ◌∙◌, Bool, arith, for_range, for_range_frame, if_cases}
use mathlib.Core.Path.{ap₂}
use moto_ctrl.Input.Types.{InputConfig, InputEvent, combo, ComboDef, Button, InputEngine}
use moto_ctrl.Input.Queue.{enqueue}
use moto_ctrl.Input.Matcher.{
  put_combo, emit_combo, advance, timed_progress, match_sequence, handle_sequence_press, consume,
  fire_chord, match_chord, handle_chord_state,
}

-- What the debouncing of a button is about.
abbrev pub Wire : Type 0
Wire = Bool × ℕ × Bool

abbrev pub wire_of : Button → Wire
wire_of st = (st.raw_state, st.raw_change_ms, st.stable_state)

-- With when it was pressed, which is what the chords look at.
abbrev pub held_of : Button → Wire × ℕ
held_of st = (wire_of st, st.press_start_ms)

module _ (eng : InputEngine) (evt : InputEvent) where
  pub config-enqueue : (enqueue eng evt).config ≡ eng.config
  unfolding enqueue
  config-enqueue = ground arith

  pub buttons-enqueue : (enqueue eng evt).buttons ≡ eng.buttons
  unfolding enqueue
  buttons-enqueue = ground arith

  pub combo_state-enqueue : (enqueue eng evt).combo_state ≡ eng.combo_state
  unfolding enqueue
  combo_state-enqueue = ground arith

-- The configuration and the buttons.
abbrev pub Still : Type 0
Still = InputConfig × (ℕ → Button)

abbrev pub still : InputEngine → Still
still eng = (eng.config, eng.buttons)

pub still-emit_combo : (eng : InputEngine) (i : ℕ) → still (emit_combo eng i) ≡ still eng
unfolding emit_combo
still-emit_combo eng i =
    let evt = combo i (eng.config.combos i).actions in
    ap₂ (λ c bs. (c, bs)) (config-enqueue eng evt) (buttons-enqueue eng evt)

still-advance :
    (def : ComboDef) (button now i progress : ℕ) (eng : InputEngine)
    → still (advance def button now i progress eng) ≡ still eng
unfolding advance
still-advance def button now i progress eng =
    let Kept = λ (e : InputEngine). still e ≡ still eng in
    if_cases Kept _ (if_cases Kept _ (still-emit_combo (put_combo eng i _) i) refl)
      (if_cases Kept _ refl refl)

still-match_sequence :
    (button now i : ℕ) (eng : InputEngine) → still (match_sequence button now i eng) ≡ still eng
unfolding match_sequence
still-match_sequence button now i eng =
    let def = eng.config.combos i in
    let going = still-advance def button now i (timed_progress def (eng.combo_state i) now) eng in
    ground (arith, going)

pub still-handle_sequence_press :
    (eng : InputEngine) (button now : ℕ) → still (handle_sequence_press eng button now) ≡ still eng
unfolding handle_sequence_press
still-handle_sequence_press eng button now =
    for_range_frame still (match_sequence button now) (λ k e. still-match_sequence button now k e)
      eng.config.combo_count 0 eng

-- The configuration and the levels of the buttons.
abbrev pub Levels : Type 0
Levels = InputConfig × (Wire × ℕ)

abbrev pub levels : ℕ → InputEngine → Levels
levels b eng = (eng.config, held_of (eng.buttons b))

levels-consume :
    (def : ComboDef) (k b : ℕ) (eng : InputEngine) → levels b (consume def k eng) ≡ levels b eng
unfolding consume
levels-consume def k b eng = ground arith

levels-fire_chord :
    (def : ComboDef) (i b : ℕ) (eng : InputEngine) → levels b (fire_chord def i eng) ≡ levels b eng
unfolding fire_chord
levels-fire_chord def i b eng =
    let marked = for_range def.length 0 (consume def) eng in
    let same =
      for_range_frame (levels b) (consume def) (λ k e. levels-consume def k b e) def.length 0 eng in
    ap (λ (x : Still). (x.0, held_of (x.1 b))) (still-emit_combo marked i) ∙ same

pub levels-match_chord : (i b : ℕ) (eng : InputEngine) → levels b (match_chord i eng) ≡ levels b eng
unfolding match_chord
levels-match_chord i b eng =
    let fired = levels-fire_chord (eng.config.combos i) i b eng in ground (arith, fired)

pub levels-handle_chord_state :
    (b : ℕ) (eng : InputEngine) → levels b (handle_chord_state eng) ≡ levels b eng
unfolding handle_chord_state
levels-handle_chord_state b eng =
    for_range_frame (levels b) match_chord (λ k e. levels-match_chord k b e) eng.config.combo_count
      0 eng
