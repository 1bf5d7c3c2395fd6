-- ===== src/Input/Chords.antt =====
-- The chords of firmware/components/core/mc_input.c: one that has fired is held, and its buttons are
-- marked.
use moto_ctrl.Base.{
  ℕ, zero, suc, ◌+◌, ◌<◌, ◌≤◌, ◌≡◌, ◌≢◌, sym, ap, ◌∙◌, Bool, true, not, ◌||◌, some, arith, leb,
  for_range, for_range_keeps, for_range_frame, for_range_each, inl, inr, subst, Option-cases,
  Bool-cases,
}
use native.Mathlib.Decide.{ℕ_discrete}
use moto_ctrl.Input.Types.{InputConfig, ComboDef, InputEngine, button_count}
use moto_ctrl.Input.Matcher.{is_chord, emit_combo, scan_members, consume, fire_chord, match_chord}
use moto_ctrl.Input.Frames.{Still, still-emit_combo, levels-match_chord, Levels}
use moto_ctrl.Input.Marks.{Flag, flag, flag-emit_combo}

abbrev pub consumed : ℕ → InputEngine → Bool
consumed b eng = (eng.buttons b).chord_consumed

abbrev pub down : ℕ → InputEngine → Bool
down b eng = (eng.buttons b).stable_state

-- The buttons of a chord that has fired are marked.
abbrev pub SpentOf : ComboDef → ℕ → InputEngine → Type 0
SpentOf def i eng =
    is_chord def.type ≡ true
    → (eng.combo_state i).chord_fired ≡ true
    → (k : ℕ) → k < def.length
    → (def.buttons k < button_count) × (consumed (def.buttons k) eng ≡ true)

-- They are down and marked.
abbrev pub HeldOf : ComboDef → ℕ → InputEngine → Type 0
HeldOf def i eng =
    is_chord def.type ≡ true
    → (eng.combo_state i).chord_fired ≡ true
    → (k : ℕ) → k < def.length
    → (def.buttons k < button_count)
      × (down (def.buttons k) eng ≡ true)
      × (consumed (def.buttons k) eng ≡ true)

abbrev pub IsSpent : ℕ → InputEngine → Type 0
IsSpent i eng = SpentOf (eng.config.combos i) i eng

abbrev pub IsHeld : ℕ → InputEngine → Type 0
IsHeld i eng = HeldOf (eng.config.combos i) i eng

-- A scan that passes saw every member down.
scan_members-down :
    (n k : ℕ) (def : ComboDef) (eng : InputEngine) (lo hi : ℕ) (times : ℕ × ℕ)
    → scan_members n k def eng lo hi ≡ some times
    → (m : ℕ) → k ≤ m
    → m < k + n
    → (def.buttons m < button_count) × (down (def.buttons m) eng ≡ true)
unfolding scan_members
scan_members-down zero k def eng lo hi times e m le lt = absurd (omega arith)
scan_members-down (suc n) k def eng lo hi times e m le lt =
    elim (Bool-cases (leb button_count (def.buttons k) || not (down (def.buttons k) eng))) [
      | inl bad ↦ absurd (ground (arith, bad, e))
      | inr good ↦ elim (ℕ_discrete m k) [
        | yes here ↦ rw here (ground (arith, good))
        | no ne ↦
            scan_members-down n (suc k) def eng _ _ times (rw good at e) m (omega arith)
              (omega arith)
      ]
    ]

module _ (def : ComboDef) where
  abbrev Marked : ℕ → InputEngine → Type 0
  Marked b eng = consumed b eng ≡ true

  consume_marks : (k b : ℕ) (eng : InputEngine) → Marked b eng → Marked b (consume def k eng)
  unfolding consume
  consume_marks k b eng on = ground (arith, on)

  consume_member :
      (k : ℕ) (eng : InputEngine)
      → def.buttons k < button_count
      → Marked (def.buttons k) (consume def k eng)
  unfolding consume
  consume_member k eng lt = ground (arith, lt)

  module _ (eng : InputEngine) (i : ℕ) where
    consumed-fire_chord :
        (b : ℕ)
        → consumed b (fire_chord def i eng) ≡ consumed b (for_range def.length 0 (consume def) eng)
    unfolding fire_chord
    consumed-fire_chord b =
        ap (λ (x : Still). (x.1 b).chord_consumed)
          (still-emit_combo (for_range def.length 0 (consume def) eng) i)

    fire_chord_marks : (b : ℕ) → Marked b eng → Marked b (fire_chord def i eng)
    fire_chord_marks b on =
        consumed-fire_chord b
        ∙ for_range_keeps (Marked b) (consume def) (λ k e h. consume_marks k b e h) def.length 0 eng
            on

    fire_chord_members :
        (k : ℕ)
        → k < def.length
        → def.buttons k < button_count
        → Marked (def.buttons k) (fire_chord def i eng)
    fire_chord_members k lt inside =
        consumed-fire_chord (def.buttons k)
        ∙ for_range_each (λ j e. Unit {0})
            (λ j e. def.buttons j < button_count → Marked (def.buttons j) e) (consume def)
            (λ l j e ne u. tt) (λ l j e ne h inside'. consume_marks l (def.buttons j) e (h inside'))
            (λ l e u inside'. consume_member l e inside') def.length 0 k eng (omega arith)
            (omega arith) tt inside

    flag-fire_chord : (j : ℕ) → j ≢ i → flag j (fire_chord def i eng) ≡ flag j eng
    unfolding fire_chord
    flag-fire_chord j ne =
        let fired = emit_combo (for_range def.length 0 (consume def) eng) i in
        let kept : flag j fired ≡ flag j eng =
          flag-emit_combo j _ i
          ∙ for_range_frame (flag j) (consume def) (λ k e. unfold consume in ground arith)
              def.length 0 eng in
        ground (arith, ne, kept)

module _ (k : ℕ) (eng : InputEngine) where
  match_chord_marks : (b : ℕ) → consumed b eng ≡ true → consumed b (match_chord k eng) ≡ true
  unfolding match_chord
  match_chord_marks b on = ground (arith, on, fire_chord_marks (eng.config.combos k) eng k b on)

  flag-match_chord : (j : ℕ) → j ≢ k → flag j (match_chord k eng) ≡ flag j eng
  unfolding match_chord
  flag-match_chord j ne = ground (arith, ne, flag-fire_chord (eng.config.combos k) eng k j ne)

  down-match_chord : (b : ℕ) → down b (match_chord k eng) ≡ down b eng
  down-match_chord b = ap (λ (x : Levels). x.1.0.2) (levels-match_chord k b eng)

  config-match_chord : (match_chord k eng).config ≡ eng.config
  config-match_chord = ap (λ (x : Levels). x.0) (levels-match_chord k 0 eng)

  module _ (i : ℕ) where
    abbrev OfConfig : (ComboDef → Type 0) → InputConfig → Type 0
    OfConfig P config = P (config.combos i)

    pub matched-IsSpent : i ≢ k → IsSpent i eng → IsSpent i (match_chord k eng)
    matched-IsSpent ne h =
        subst (OfConfig (λ def. SpentOf def i (match_chord k eng))) (sym config-match_chord)
          (λ chord fired m lt.
            let was : (eng.combo_state i).chord_fired ≡ true =
              sym (ap (λ (x : Flag). x.1) (flag-match_chord i ne)) ∙ fired in
            let (inside, on) = h chord was m lt in
            (inside, match_chord_marks ((eng.config.combos i).buttons m) on))

    pub matched-IsHeld : i ≢ k → IsHeld i eng → IsHeld i (match_chord k eng)
    matched-IsHeld ne h =
        subst (OfConfig (λ def. HeldOf def i (match_chord k eng))) (sym config-match_chord)
          (λ chord fired m lt.
            let was : (eng.combo_state i).chord_fired ≡ true =
              sym (ap (λ (x : Flag). x.1) (flag-match_chord i ne)) ∙ fired in
            let (inside, held, on) = h chord was m lt in
            let b = (eng.config.combos i).buttons m in
            (inside, down-match_chord b ∙ held, match_chord_marks b on))

  -- Where the chord has fired after its round, its buttons were seen down, and were marked now or
  -- before.
  round : IsSpent k eng → HeldOf (eng.config.combos k) k (match_chord k eng)
  round h chord fired m lt =
      let def = eng.config.combos k in
      let b = def.buttons m in
      elim (Option-cases (scan_members def.length 0 def eng 0 0)) [
        | inl up ↦ absurd (unfold match_chord in ground (arith, chord, lt, up, fired))
        | inr (times, e) ↦
            let (inside, held) =
              scan_members-down def.length 0 def eng 0 0 times e m (omega arith) (omega arith) in
            (
              inside,
              down-match_chord b ∙ held,
              elim (Bool-cases (eng.combo_state k).chord_fired) [
                | inl was ↦ match_chord_marks b (h chord was m lt).1
                | inr new ↦
                    unfold match_chord in
                    ground
                      (arith, chord, lt, e, new, fired, fire_chord_members def eng k m lt inside)
              ],
            )
      ]

  pub round-IsHeld : IsSpent k eng → IsHeld k (match_chord k eng)
  round-IsHeld h =
      subst (λ (config : InputConfig). HeldOf (config.combos k) k (match_chord k eng))
        (sym config-match_chord) (round h)
