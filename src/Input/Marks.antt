-- ===== src/Input/Marks.antt =====
-- What the polling of a button leaves of the chords (firmware/components/core/mc_input.c).
use moto_ctrl.Base.{
  ℕ, ◌+◌, ◌≡◌, ◌≢◌, refl, sym, ap, ◌∙◌, Bool, true, false, arith, leb, ◌==◌, if◌then◌else◌,
  for_range_frame, if_cases,
}
use native.Mathlib.Decide.{ℕ_discrete}
use mathlib.Core.Path.{ap₂}
use moto_ctrl.Input.Types.{
  double_press, long_press, short_press, PressType, InputConfig, InputEvent, ComboDef, ComboState,
  Button, InputEngine,
}
use moto_ctrl.Input.Queue.{enqueue}
use moto_ctrl.Input.Matcher.{
  put_button, put_combo, emit_press, emit_combo, advance, timed_progress, match_sequence,
  handle_sequence_press,
}
use moto_ctrl.Input.Poll.{release, debounce, fire_long, resolve_short, poll_button}
use moto_ctrl.Input.Frames.{
  Still, config-enqueue, buttons-enqueue, combo_state-enqueue, still-handle_sequence_press,
}

-- Whether combination `i` has fired, with the configuration.
abbrev pub Flag : Type 0
Flag = InputConfig × Bool

abbrev pub flag : ℕ → InputEngine → Flag
flag i eng = (eng.config, (eng.combo_state i).chord_fired)

module _ (i : ℕ) (eng : InputEngine) where
  flag-enqueue : (evt : InputEvent) → flag i (enqueue eng evt) ≡ flag i eng
  flag-enqueue evt =
      ap₂ (λ c f. (c, f)) (config-enqueue eng evt)
        (ap (λ (f : ℕ → ComboState). (f i).chord_fired) (combo_state-enqueue eng evt))

  flag-emit_press : (b : ℕ) (type : PressType) → flag i (emit_press eng b type) ≡ flag i eng
  unfolding emit_press
  flag-emit_press b type = flag-enqueue _

  pub flag-emit_combo : (k : ℕ) → flag i (emit_combo eng k) ≡ flag i eng
  unfolding emit_combo
  flag-emit_combo k = flag-enqueue _

-- Progress alone does not change it.
pub flag-put_combo :
    (i k : ℕ) (eng : InputEngine) (st : ComboState)
    → st.chord_fired ≡ (eng.combo_state k).chord_fired
    → flag i (put_combo eng k st) ≡ flag i eng
flag-put_combo i k eng st same = elim (ℕ_discrete i k) [
  | yes e ↦ rw e (ground (arith, same))
  | no ne ↦ ground (arith, ne)
]

flag-advance :
    (def : ComboDef) (button now k progress i : ℕ) (eng : InputEngine)
    → flag i (advance def button now k progress eng) ≡ flag i eng
unfolding advance
flag-advance def button now k progress i eng =
    let Kept = λ (e : InputEngine). flag i e ≡ flag i eng in
    let started = if progress == 0 then now else (eng.combo_state k).start_ms in
    let went = λ (n : ℕ). record (eng.combo_state k) { progress = n; start_ms = started } in
    let mid = put_combo eng k (went (progress + 1)) in
    let out = flag-emit_combo i mid k ∙ flag-put_combo i k eng (went (progress + 1)) refl in
    let same = sym (
      ap (λ (x : Flag). x.1)
        (flag-emit_combo k mid k ∙ flag-put_combo k k eng (went (progress + 1)) refl)) in
    if_cases Kept (def.buttons progress == button)
      (if_cases Kept (leb def.length (progress + 1))
        (flag-put_combo i k (emit_combo mid k) (went 0) same ∙ out)
        (flag-put_combo i k eng (went (progress + 1)) refl))
      (if_cases Kept (def.buttons 0 == button)
        (flag-put_combo i k eng (record (eng.combo_state k) { progress = 1; start_ms = now }) refl)
        (flag-put_combo i k eng (record (eng.combo_state k) { progress = 0 }) refl))

flag-match_sequence :
    (button now k i : ℕ) (eng : InputEngine) → flag i (match_sequence button now k eng) ≡ flag i eng
unfolding match_sequence
flag-match_sequence button now k i eng =
    let def = eng.config.combos k in
    ground (arith, flag-advance def button now k (timed_progress def (eng.combo_state k) now) i eng)

flag-handle_sequence_press :
    (i : ℕ) (eng : InputEngine) (button now : ℕ)
    → flag i (handle_sequence_press eng button now) ≡ flag i eng
unfolding handle_sequence_press
flag-handle_sequence_press i eng button now =
    for_range_frame (flag i) (match_sequence button now)
      (λ k e. flag-match_sequence button now k i e) eng.config.combo_count 0 eng

-- The polling of the button `b` leaves the flags.
module _ (eng : InputEngine) (b i now : ℕ) where
  flag-debounce : (raw : Bool) → flag i (debounce eng b raw now) ≡ flag i eng
  unfolding debounce release
  flag-debounce raw =
      let st = record (eng.buttons b) { stable_state = false } in
      ground (arith, flag-emit_press i (put_button eng b st) b double_press)

  flag-fire_long : flag i (fire_long eng b now) ≡ flag i eng
  unfolding fire_long
  flag-fire_long =
      let st = record (eng.buttons b) { long_press_fired = true; pending_double = false } in
      ground (arith, flag-emit_press i (put_button eng b st) b long_press)

  flag-resolve_short : flag i (resolve_short eng b now) ≡ flag i eng
  unfolding resolve_short
  flag-resolve_short =
      let st = record (eng.buttons b) { pending_double = false } in
      let sent = emit_press (put_button eng b st) b short_press in
      ground (
        arith,
        flag-emit_press i (put_button eng b st) b short_press,
        flag-handle_sequence_press i sent b now,
      )

pub flag-poll_button :
    (now : ℕ) (raw : ℕ → Bool) (b i : ℕ) (eng : InputEngine)
    → flag i (poll_button now raw b eng) ≡ flag i eng
unfolding poll_button
flag-poll_button now raw b i eng =
    let calm = debounce eng b (raw b) now in
    flag-resolve_short (fire_long calm b now) b i now
    ∙ flag-fire_long calm b i now
    ∙ flag-debounce eng b i now (raw b)

still-emit_press :
    (eng : InputEngine) (b : ℕ) (type : PressType) → (emit_press eng b type).buttons ≡ eng.buttons
unfolding emit_press
still-emit_press eng b type = buttons-enqueue eng _

-- The polling of the button `b` leaves the other buttons, and the mark of a button that was held.
module _ (eng : InputEngine) (b j now : ℕ) where
  abbrev pub Kept : InputEngine → Type 0
  Kept e =
      (j ≢ b → e.buttons j ≡ eng.buttons j)
      × ((eng.buttons b).chord_consumed ≡ true → (e.buttons b).chord_consumed ≡ true)

  pub fire_long-Kept : Kept (fire_long eng b now)
  unfolding fire_long
  fire_long-Kept =
      let st = record (eng.buttons b) { long_press_fired = true; pending_double = false } in
      let sent = still-emit_press (put_button eng b st) b long_press in
      (
        λ ne. ground (arith, ne, ap (λ (f : ℕ → Button). f j) sent),
        λ on. ground (arith, on, ap (λ (f : ℕ → Button). f b) sent),
      )

  pub resolve_short-Kept : Kept (resolve_short eng b now)
  unfolding resolve_short
  resolve_short-Kept =
      let st = record (eng.buttons b) { pending_double = false } in
      let sent = still-emit_press (put_button eng b st) b short_press in
      let fed =
        ap (λ (x : Still). x.1)
          (still-handle_sequence_press (emit_press (put_button eng b st) b short_press) b now) in
      (
        λ ne.
            ground (arith, ne, ap (λ (f : ℕ → Button). f j) sent, ap (λ (f : ℕ → Button). f j) fed),
        λ on.
            ground (arith, on, ap (λ (f : ℕ → Button). f b) sent, ap (λ (f : ℕ → Button). f b) fed),
      )

  pub debounce-Kept :
      (raw : Bool)
      → (j ≢ b → (debounce eng b raw now).buttons j ≡ eng.buttons j)
        × ((eng.buttons b).stable_state ≡ true
            → (eng.buttons b).chord_consumed ≡ true
            → ((debounce eng b raw now).buttons b).chord_consumed ≡ true)
  unfolding debounce release
  debounce-Kept raw =
      let st = record (eng.buttons b) { stable_state = false } in
      let sent = still-emit_press (put_button eng b st) b double_press in
      (
        λ ne. ground (arith, ne, ap (λ (f : ℕ → Button). f j) sent),
        λ held on. ground (arith, held, on, ap (λ (f : ℕ → Button). f b) sent),
      )
