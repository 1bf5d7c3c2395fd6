-- ===== src/Input/Debounce.antt =====
-- The debouncing of firmware/components/core/mc_input.c: the level of a button over many polls.
use moto_ctrl.Base.{
  ℕ, ◌<◌, ◌≡◌, refl, ap, ◌∙◌, Bool, true, false, ◌&&◌, List, [], ◌∷◌, any, arith, ◌==◌,
  if◌then◌else◌, for_range, for_range_cell, for_range_keeps, elapsed_at_least,
}
use mathlib.Core.Path.{ap₂}
use moto_ctrl.Input.Types.{
  PressType, InputConfig, press, InputEngine, button_count, double_press, long_press, short_press,
}
use moto_ctrl.Input.Matcher.{put_button, emit_press}
use moto_ctrl.Input.Poll.{
  differs, release, debounce, fire_long, resolve_short, poll_button, poll, button_level,
}
use moto_ctrl.Input.Frames.{
  Wire, wire_of, Still, still, config-enqueue, buttons-enqueue, still-handle_sequence_press, Levels,
  levels-handle_chord_state,
}

-- What a reading makes of a raw level, of when it changed, and of the debounced level.
abbrev pub debounced : Bool → ℕ → ℕ → Wire → Wire
debounced raw now debounce_ms (raw_state, raw_change_ms, stable_state) =
    if differs raw raw_state
    then (raw, now, stable_state)
    else if differs raw_state stable_state && elapsed_at_least now raw_change_ms debounce_ms
    then (raw_state, raw_change_ms, raw_state)
    else (raw_state, raw_change_ms, stable_state)

abbrev Wired : Type 0
Wired = InputConfig × Wire

-- The configuration and the wire of one button.
abbrev wired : ℕ → InputEngine → Wired
wired b eng = (eng.config, wire_of (eng.buttons b))

abbrev of_still : ℕ → Still → Wired
of_still b x = (x.0, wire_of (x.1 b))

still-emit_press :
    (eng : InputEngine) (b : ℕ) (type : PressType) → still (emit_press eng b type) ≡ still eng
unfolding emit_press
still-emit_press eng b type =
    let evt = press b type (eng.buttons b).chord_consumed in
    ap₂ (λ c bs. (c, bs)) (config-enqueue eng evt) (buttons-enqueue eng evt)

module _ (eng : InputEngine) (b j now : ℕ) where
  wired-release : wired j (release eng b now) ≡ (
      if j == b
      then (eng.config, ((eng.buttons b).raw_state, (eng.buttons b).raw_change_ms, false))
      else wired j eng)
  unfolding release
  wired-release =
      let st = record (eng.buttons b) { stable_state = false } in
      let sent = still-emit_press (put_button eng b st) b double_press in
      ground (arith, ap (of_still j) sent, ap (of_still b) sent)

  wired-debounce :
      (raw : Bool)
      → wired j (debounce eng b raw now) ≡ (
          if j == b
          then (
            eng.config,
            debounced raw now eng.config.timing.debounce_ms (wire_of (eng.buttons b)),
          )
          else wired j eng)
  unfolding debounce
  wired-debounce raw = ground (arith, wired-release)

  wired-fire_long : wired j (fire_long eng b now) ≡ wired j eng
  unfolding fire_long
  wired-fire_long =
      let st = record (eng.buttons b) { long_press_fired = true; pending_double = false } in
      let sent = still-emit_press (put_button eng b st) b long_press in
      ground (arith, ap (of_still j) sent)

  wired-resolve_short : wired j (resolve_short eng b now) ≡ wired j eng
  unfolding resolve_short
  wired-resolve_short =
      let st = record (eng.buttons b) { pending_double = false } in
      let sent = still-emit_press (put_button eng b st) b short_press in
      let fed =
        still-handle_sequence_press (emit_press (put_button eng b st) b short_press) b now in
      ground (arith, ap (of_still j) sent, ap (of_still j) fed)

wired-poll_button :
    (now : ℕ) (raw : ℕ → Bool) (b j : ℕ) (eng : InputEngine)
    → wired j (poll_button now raw b eng) ≡ (
        if j == b
        then (
          eng.config,
          debounced (raw b) now eng.config.timing.debounce_ms (wire_of (eng.buttons b)),
        )
        else wired j eng)
unfolding poll_button
wired-poll_button now raw b j eng =
    let calm = debounce eng b (raw b) now in
    wired-resolve_short (fire_long calm b now) b j now
    ∙ wired-fire_long calm b j now
    ∙ wired-debounce eng b j now (raw b)

module _ (now : ℕ) (raw : ℕ → Bool) (eng : InputEngine) where
  abbrev Same : InputEngine → Type 0
  Same e = e.config ≡ eng.config

  abbrev polled : InputEngine
  polled = for_range button_count 0 (poll_button now raw) eng

  config-poll_button : (k : ℕ) (e : InputEngine) → Same e → Same (poll_button now raw k e)
  config-poll_button k e h =
      ground (arith, h, ap (λ (x : Wired). x.0) (wired-poll_button now raw k k e))

  wire-rounds :
      (b : ℕ)
      → b < button_count
      → wire_of (polled.buttons b)
        ≡ debounced (raw b) now eng.config.timing.debounce_ms (wire_of (eng.buttons b))
  wire-rounds b lt =
      for_range_cell Same (λ j e. wire_of (e.buttons j))
        (λ k w. debounced (raw k) now eng.config.timing.debounce_ms w) (poll_button now raw)
        config-poll_button
        (λ k j e h ne.
          ground (arith, ne, ap (λ (x : Wired). x.1) (wired-poll_button now raw k j e)))
        (λ k e h. ground (arith, h, ap (λ (x : Wired). x.1) (wired-poll_button now raw k k e)))
        button_count 0 b eng refl (omega arith) lt

  pub config-poll : (poll eng now raw).config ≡ eng.config
  unfolding poll
  config-poll =
      ap (λ (x : Levels). x.0) (levels-handle_chord_state 0 polled)
      ∙ for_range_keeps Same (poll_button now raw) config-poll_button button_count 0 eng refl

  pub wire-poll :
      (b : ℕ)
      → b < button_count
      → wire_of ((poll eng now raw).buttons b)
        ≡ debounced (raw b) now eng.config.timing.debounce_ms (wire_of (eng.buttons b))
  unfolding poll
  wire-poll b lt =
      ap (λ (x : Levels). x.1.0) (levels-handle_chord_state b polled) ∙ wire-rounds b lt

-- One call of `mc_input_poll`: when, and what it reads.
abbrev pub Poll : Type 0
Poll = ℕ × (ℕ → Bool)

unfoldable pub run : List Poll → InputEngine → InputEngine
run [] eng = eng
run ((now, raw) ∷ polls) eng = run polls (poll eng now raw)

abbrev pub times : List Poll → List ℕ
times [] = []
times ((now, raw) ∷ polls) = now ∷ times polls

-- All the polls read the same of a button.
abbrev pub Reads : ℕ → Bool → List Poll → Type 0
Reads b level [] = Unit {0}
Reads b level ((now, raw) ∷ polls) = (raw b ≡ level) × Reads b level polls

debounced_steady :
    (level stable : Bool) (since now debounce_ms : ℕ)
    → debounced level now debounce_ms (level, since, stable)
      ≡ (level, since, if elapsed_at_least now since debounce_ms then level else stable)
debounced_steady true true since now debounce_ms = ground arith
debounced_steady true false since now debounce_ms = ground arith
debounced_steady false true since now debounce_ms = ground arith
debounced_steady false false since now debounce_ms = ground arith

later :
    (here rest : Bool) (level stable : Bool)
    → (if rest then level else (if here then level else stable))
      ≡ (if (elim here [ true ↦ true | false ↦ rest ]) then level else stable)
later true true level stable = refl
later true false level stable = refl
later false true level stable = refl
later false false level stable = refl

module _ (b : ℕ) (lt : b < button_count) (level : Bool) where
  settles :
      (polls : List Poll) (eng : InputEngine) (since : ℕ) (stable : Bool) (debounce_ms : ℕ)
      → Reads b level polls
      → eng.config.timing.debounce_ms ≡ debounce_ms
      → wire_of (eng.buttons b) ≡ (level, since, stable)
      → button_level (run polls eng) b
        ≡ (if any (λ t. elapsed_at_least t since debounce_ms) (times polls) then level else stable)
  unfolding run button_level any
  settles [] eng since stable debounce_ms reads e w = ground (arith, lt, ap (λ (x : Wire). x.2) w)
  settles ((now, raw) ∷ polls) eng since stable debounce_ms (read, reads) e w =
      let settled = if elapsed_at_least now since debounce_ms then level else stable in
      let turned =
        wire-poll now raw eng b lt
        ∙ ap (λ (d : ℕ). debounced (raw b) now d (wire_of (eng.buttons b))) e
        ∙ ap₂ (λ (r : Bool) (x : Wire). debounced r now debounce_ms x) read w
        ∙ debounced_steady level stable since now debounce_ms in
      let rest =
        settles polls (poll eng now raw) since settled debounce_ms reads
          (ap (λ (c : InputConfig). c.timing.debounce_ms) (config-poll now raw eng) ∙ e) turned in
      rest ∙ later (elapsed_at_least now since debounce_ms) _ level stable

  -- A button that is read otherwise than before keeps its debounced level until a poll that comes the
  -- debounce time after the first such reading, if all the polls between read the same, and has the
  -- new level from that poll on.
  pub run-settles :
      (now : ℕ) (raw : ℕ → Bool) (polls : List Poll) (eng : InputEngine)
      → differs level (eng.buttons b).raw_state ≡ true
      → raw b ≡ level
      → Reads b level polls
      → button_level (run ((now, raw) ∷ polls) eng) b ≡ (
          if any (λ t. elapsed_at_least t now eng.config.timing.debounce_ms) (times polls)
          then level
          else button_level eng b)
  unfolding run
  run-settles now raw polls eng changed read reads =
      let d = eng.config.timing.debounce_ms in
      settles polls (poll eng now raw) now (button_level eng b) d reads
        (ap (λ (c : InputConfig). c.timing.debounce_ms) (config-poll now raw eng))
        (wire-poll now raw eng b lt
          ∙ ap (λ (r : Bool). debounced r now d (wire_of (eng.buttons b))) read
          ∙ unfold button_level in ground (arith, changed, lt))
