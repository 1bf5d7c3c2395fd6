-- ===== src/Input/Quiet.antt =====
-- Polls that are missed: what `mc_input_activity_pending` of firmware/components/core/mc_input.c
-- promises to a power policy that stops polling.
use moto_ctrl.Base.{
  ℕ, zero, suc, ◌+◌, ◌<◌, ◌≤◌, ◌≡◌, refl, sym, ap, ◌∙◌, Bool, false, not, ◌||◌, none, arith, ltb,
  ◌==◌, update, for_range, any_from-false, fun_ext, Bool-cases, inl, inr,
}
use native.Mathlib.Decide.{ℕ_discrete}
use moto_ctrl.Input.Types.{ComboDef, ComboState, InputEngine, button_count}
use moto_ctrl.Input.Matcher.{is_chord, put_combo, scan_members, match_chord, handle_chord_state}
use moto_ctrl.Input.Poll.{debounce, fire_long, resolve_short, poll_button, poll, activity_pending}

-- A loop whose rounds leave the state leaves it.
for_range_same :
    {S : Type 0} (body : ℕ → S → S) (s : S) (n i : ℕ)
    → ((k : ℕ) → i ≤ k → k < i + n → body k s ≡ s)
    → for_range n i body s ≡ s
unfolding for_range
for_range_same body s zero i same = refl
for_range_same body s (suc n) i same =
    ap (for_range n (suc i) body) (same i (omega arith) (omega arith))
    ∙ for_range_same body s n (suc i) (λ k le lt. same k (omega arith) (omega arith))

update_same : {A : Type 0} (a : ℕ → A) (i : ℕ) (v : A) → v ≡ a i → update a i v ≡ a
update_same a i v e =
    fun_ext (λ j. elim (ℕ_discrete j i) [
      | yes e' ↦ rw e' (ground (arith, e))
      | no ne ↦ ground (arith, ne)
    ])

-- Nothing is pressed or waits to be told.
record IsIdle (eng : InputEngine) : Type 0 where
  up :
      (b : ℕ)
      → b < button_count
      → ((eng.buttons b).raw_state ≡ false)
        × ((eng.buttons b).stable_state ≡ false)
        × ((eng.buttons b).pending_double ≡ false)
  unfired : (i : ℕ) → i < eng.config.combo_count → (eng.combo_state i).chord_fired ≡ false

module _ (eng : InputEngine) where
  activity_pending-IsIdle : activity_pending eng ≡ false → IsIdle eng
  unfolding activity_pending
  activity_pending-IsIdle quiet =
      let up =
        any_from-false button_count 0
          (λ b.
            (eng.buttons b).raw_state
            || (eng.buttons b).stable_state
            || (eng.buttons b).pending_double)
          (ground (arith, quiet)) in
      let unfired =
        any_from-false eng.config.combo_count 0
          (λ i. ltb 0 (eng.combo_state i).progress || (eng.combo_state i).chord_fired)
          (ground (arith, quiet)) in
      record {
        up = λ b lt. ground (arith, up b (omega arith) (omega arith));
        unfired = λ i lt. ground (arith, unfired i (omega arith) (omega arith));
      }

  module _ (h : IsIdle eng) where
    poll_button_idle :
        (now : ℕ) (raw : ℕ → Bool) (b : ℕ)
        → b < button_count
        → raw b ≡ false
        → poll_button now raw b eng ≡ eng
    unfolding poll_button debounce fire_long resolve_short
    poll_button_idle now raw b lt read = ground (arith, h.up b lt, read)

    scan_idle : (n k lo hi : ℕ) (def : ComboDef) → 0 < n → scan_members n k def eng lo hi ≡ none
    unfolding scan_members
    scan_idle zero k lo hi def some_left = absurd (omega arith)
    scan_idle (suc n) k lo hi def some_left = elim (Bool-cases (ltb (def.buttons k) button_count)) [
      | inl inside ↦ ground (arith, inside, (h.up (def.buttons k) (ground (arith, inside))).1)
      | inr outside ↦ ground (arith, outside)
    ]

    match_chord_idle : (i : ℕ) → i < eng.config.combo_count → match_chord i eng ≡ eng
    unfolding match_chord
    match_chord_idle i lt =
        let def = eng.config.combos i in
        let clear = λ (f : Bool). record (eng.combo_state i) { chord_fired = f } in
        let same : put_combo eng i (clear false) ≡ eng =
          ap (λ (c : ℕ → ComboState). record eng { combo_state = c })
            (update_same eng.combo_state i (clear false) (ap clear (sym (h.unfired i lt)))) in
        elim (Bool-cases (not (is_chord def.type) || def.length == 0)) [
          | inl skip ↦ ground (arith, skip)
          | inr go ↦
              let up = scan_idle def.length 0 0 0 def (ground (arith, go)) in
              ground (arith, go, up, same)
        ]

-- Where the engine reports no activity pending, a poll that reads every button released leaves the
-- engine exactly as it was, whenever it comes.
pub poll_idle :
    (eng : InputEngine) (now : ℕ) (raw : ℕ → Bool)
    → activity_pending eng ≡ false
    → ((b : ℕ) → b < button_count → raw b ≡ false)
    → poll eng now raw ≡ eng
unfolding poll handle_chord_state
poll_idle eng now raw quiet released =
    let h = activity_pending-IsIdle eng quiet in
    let rounds =
      for_range_same (poll_button now raw) eng button_count 0
        (λ b le lt. poll_button_idle eng h now raw b (omega arith) (released b (omega arith))) in
    ap handle_chord_state rounds
    ∙ for_range_same match_chord eng eng.config.combo_count 0
        (λ i le lt. match_chord_idle eng h i (omega arith))
