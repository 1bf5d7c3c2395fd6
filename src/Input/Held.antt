-- ===== src/Input/Held.antt =====
-- The chords of firmware/components/core/mc_input.c over many polls.
use moto_ctrl.Base.{
  ℕ, ◌<◌, ◌≡◌, ◌≢◌, refl, sym, ap, ◌∙◌, Bool, true, false, List, [], ◌∷◌, arith, update, for_range,
  for_range_frame, for_range_each, subst, if_cases, Option,
}
use moto_ctrl.Input.Types.{InputConfig, InputEvent, combo_zero, Button, InputEngine, button_count}
use moto_ctrl.Input.Queue.{pop_event, set_config, init}
use moto_ctrl.Input.Matcher.{match_chord, handle_chord_state}
use moto_ctrl.Input.Poll.{debounce, fire_long, poll_button, poll}
use moto_ctrl.Input.Marks.{
  Flag, flag, flag-poll_button, fire_long-Kept, resolve_short-Kept, debounce-Kept,
}
use moto_ctrl.Input.Chords.{
  consumed, down, SpentOf, IsSpent, IsHeld, matched-IsSpent, matched-IsHeld, round-IsHeld,
}
use moto_ctrl.Input.Debounce.{config-poll}
use moto_ctrl.Input.Bounds.{InputOp, poll_at, take_event, reconfigure, step, run}

module _ (now : ℕ) (raw : ℕ → Bool) where
  others-poll_button :
      (b j : ℕ) (eng : InputEngine) → j ≢ b → (poll_button now raw b eng).buttons j ≡ eng.buttons j
  unfolding poll_button
  others-poll_button b j eng ne =
      let calm = debounce eng b (raw b) now in
      (resolve_short-Kept (fire_long calm b now) b j now).0 ne
      ∙ (fire_long-Kept calm b j now).0 ne
      ∙ (debounce-Kept eng b j now (raw b)).0 ne

  marked-poll_button :
      (b : ℕ) (eng : InputEngine)
      → (down b eng ≡ true) × (consumed b eng ≡ true)
      → consumed b (poll_button now raw b eng) ≡ true
  unfolding poll_button
  marked-poll_button b eng (held, on) =
      let calm = debounce eng b (raw b) now in
      (resolve_short-Kept (fire_long calm b now) b b now).1
        ((fire_long-Kept calm b b now).1 ((debounce-Kept eng b b now (raw b)).1 held on))

  module _ (eng : InputEngine) where
    abbrev polled : InputEngine
    polled = for_range button_count 0 (poll_button now raw) eng

    marked-polled :
        (b : ℕ)
        → b < button_count
        → (down b eng ≡ true) × (consumed b eng ≡ true)
        → consumed b polled ≡ true
    marked-polled b lt h =
        for_range_each (λ j e. (down j e ≡ true) × (consumed j e ≡ true))
          (λ j e. consumed j e ≡ true) (poll_button now raw)
          (λ k j e ne (held, on).
            let same = others-poll_button k j e ne in
            (
              ap (λ (st : Button). st.stable_state) same ∙ held,
              ap (λ (st : Button). st.chord_consumed) same ∙ on,
            ))
          (λ k j e ne on.
            ap (λ (st : Button). st.chord_consumed) (others-poll_button k j e ne) ∙ on)
          marked-poll_button button_count 0 b eng (omega arith) lt h

    flag-polled : (i : ℕ) → flag i polled ≡ flag i eng
    flag-polled i =
        for_range_frame (flag i) (poll_button now raw) (λ k e. flag-poll_button now raw k i e)
          button_count 0 eng

    polled-IsSpent : (i : ℕ) → IsHeld i eng → IsSpent i polled
    polled-IsSpent i h =
        let same = ap (λ (x : Flag). x.0) (flag-polled i) in
        subst (λ (config : InputConfig). SpentOf (config.combos i) i polled) (sym same)
          (λ chord fired m lt.
            let was = sym (ap (λ (x : Flag). x.1) (flag-polled i)) ∙ fired in
            let (inside, held, on) = h chord was m lt in
            (inside, marked-polled ((eng.config.combos i).buttons m) inside (held, on)))

    poll-IsHeld : (i : ℕ) → i < eng.config.combo_count → IsHeld i eng → IsHeld i (poll eng now raw)
    unfolding poll handle_chord_state
    poll-IsHeld i lt h =
        let same = ap (λ (x : Flag). x.0.combo_count) (flag-polled i) in
        for_range_each IsSpent IsHeld match_chord (λ k j e ne. matched-IsSpent k e j ne)
          (λ k j e ne. matched-IsHeld k e j ne) (λ k e. round-IsHeld k e) polled.config.combo_count
          0 i polled (omega arith) (omega (arith, same)) (polled-IsSpent i h)

-- Every chord that has fired is held, all its buttons down and marked.
pub AllHeld : InputEngine → Type 0
AllHeld eng = (i : ℕ) → i < eng.config.combo_count → IsHeld i eng

poll-AllHeld :
    (now : ℕ) (raw : ℕ → Bool) (eng : InputEngine) → AllHeld eng → AllHeld (poll eng now raw)
unfolding AllHeld
poll-AllHeld now raw eng h i lt =
    let same = ap (λ (c : InputConfig). c.combo_count) (config-poll now raw eng) in
    poll-IsHeld now raw eng i (omega (arith, same)) (h i (omega (arith, same)))

pop_event-AllHeld : (eng : InputEngine) → AllHeld eng → AllHeld (pop_event eng).0
unfolding AllHeld pop_event
pop_event-AllHeld eng h = if_cases (λ (r : InputEngine × Option InputEvent). AllHeld r.0) _ h h

-- New settings let every chord go.
fired-set_config :
    (eng : InputEngine) (config : InputConfig) (i : ℕ)
    → flag i (set_config eng config) ≡ (config, false)
unfolding set_config
fired-set_config eng config i =
    for_range_frame (flag i)
      (λ b e. record e {
        buttons = update e.buttons b (record (e.buttons b) { chord_consumed = false });
      })
      (λ k e. refl) button_count 0 (record eng { config = config; combo_state = λ _. combo_zero })

set_config-AllHeld : (eng : InputEngine) (config : InputConfig) → AllHeld (set_config eng config)
unfolding AllHeld
set_config-AllHeld eng config i lt chord fired =
    absurd (ground (arith, fired, ap (λ (x : Flag). x.1) (fired-set_config eng config i)))

run_from-AllHeld : (ops : List InputOp) (eng : InputEngine) → AllHeld eng → AllHeld (run ops eng)
unfolding run step
run_from-AllHeld [] eng h = h
run_from-AllHeld (poll_at now raw ∷ ops) eng h =
    run_from-AllHeld ops (poll eng now raw) (poll-AllHeld now raw eng h)
run_from-AllHeld (take_event ∷ ops) eng h =
    run_from-AllHeld ops (pop_event eng).0 (pop_event-AllHeld eng h)
run_from-AllHeld (reconfigure config ∷ ops) eng h =
    run_from-AllHeld ops (set_config eng config) (set_config-AllHeld eng config)

-- After any polls, takes and changes of the configuration, a chord that has fired and has not been
-- let go has every one of its buttons down and marked as consumed.
pub run-AllHeld : (config : InputConfig) (ops : List InputOp) → AllHeld (run ops (init config))
run-AllHeld config ops =
    run_from-AllHeld ops (init config)
      (unfold init AllHeld in λ i lt chord fired. absurd (ground (arith, fired)))
