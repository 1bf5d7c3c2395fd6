-- ===== src/Input/Steps.antt =====
-- What single steps of firmware/components/core/mc_input.c keep in bounds.
use moto_ctrl.Base.{
  ℕ, zero, suc, ◌+◌, ◌-◌, ◌<◌, ◌≤◌, ◌≡◌, ap, Bool, true, false, not, ◌||◌, arith, leb, ◌==◌,
  if◌then◌else◌, if_cases, if_split,
}
use native.Mathlib.Decide.{ℕ_discrete}
use moto_ctrl.Input.Types.{
  PressType, InputConfig, InputEvent, combo, ComboDef, ComboState, Button, InputEngine,
}
use moto_ctrl.Input.Queue.{enqueue, pop_event}
use moto_ctrl.Input.Matcher.{
  is_sequence, put_button, put_combo, emit_press, emit_combo, advance, timed_progress,
  match_sequence, consume,
}
use moto_ctrl.Input.Frames.{config-enqueue, combo_state-enqueue}
use moto_ctrl.Input.Fifo.{IsRing, enqueue-IsRing, pop_event-IsRing}

-- The queue's indices are in the array, and what is done of a sequence is less than the whole.
pub record IsInBounds (eng : InputEngine) : Type 0 where
  pub ring : IsRing eng
  pub progress : (i : ℕ) → (eng.combo_state i).progress ≤ (eng.config.combos i).length - 1

module _ (eng : InputEngine) (h : IsInBounds eng) where
  pub put_button-IsInBounds : (b : ℕ) (st : Button) → IsInBounds (put_button eng b st)
  put_button-IsInBounds b st = record {
    ring = record { few = h.ring.few; head = h.ring.head };
    progress = h.progress;
  }

  pub put_combo-IsInBounds :
      (i : ℕ) (st : ComboState)
      → st.progress ≤ (eng.config.combos i).length - 1
      → IsInBounds (put_combo eng i st)
  put_combo-IsInBounds i st ok = record {
    ring = record { few = h.ring.few; head = h.ring.head };
    progress = λ j. elim (ℕ_discrete j i) [
      | yes e ↦ rw e (ground (arith, ok))
      | no ne ↦ ground (arith, ne, h.progress j)
    ];
  }

  pub enqueue-IsInBounds : (evt : InputEvent) → IsInBounds (enqueue eng evt)
  enqueue-IsInBounds evt = record {
    ring = enqueue-IsRing eng h.ring evt;
    progress = λ i.
        let c = ap (λ (f : ℕ → ComboState). (f i).progress) (combo_state-enqueue eng evt) in
        let d = ap (λ (c : InputConfig). (c.combos i).length) (config-enqueue eng evt) in
        omega (arith, c, d, h.progress i);
  }

  pub pop_event-IsInBounds : IsInBounds (pop_event eng).0
  pop_event-IsInBounds = record {
    ring = pop_event-IsRing eng h.ring;
    progress = λ i. unfold pop_event in ground (arith, h.progress i);
  }

-- A press that is not the next one but the first has a second one to come.
first_again :
    (def : ComboDef) (button progress : ℕ)
    → progress ≤ def.length - 1
    → (def.buttons progress == button) ≡ false
    → (def.buttons 0 == button) ≡ true
    → 1 ≤ def.length - 1
first_again def button zero small miss again = absurd (ground (arith, miss, again))
first_again def button (suc progress) small miss again = omega arith

module _ (i : ℕ) (eng : InputEngine) (h : IsInBounds eng) where
  pub emit_combo-IsInBounds : IsInBounds (emit_combo eng i)
  unfolding emit_combo
  emit_combo-IsInBounds = enqueue-IsInBounds eng h _

  -- A sequence that is complete starts again, once its event is out.
  completed-IsInBounds :
      (full begun : ComboState)
      → begun.progress ≤ (eng.config.combos i).length - 1
      → IsInBounds (put_combo (emit_combo (put_combo eng i full) i) i begun)
  unfolding emit_combo
  completed-IsInBounds full begun ok =
      let mid = put_combo eng i full in
      let evt = combo i (eng.config.combos i).actions in
      let ring' = enqueue-IsRing mid (record { few = h.ring.few; head = h.ring.head }) evt in
      record {
        ring = record { few = ring'.few; head = ring'.head };
        progress = λ j. ground (
          arith,
          ok,
          h.progress j,
          ap (λ (f : ℕ → ComboState). (f j).progress) (combo_state-enqueue mid evt),
          ap (λ (c : InputConfig). (c.combos j).length) (config-enqueue mid evt),
          ap (λ (n : ℕ). (eng.config.combos n).length),
        );
      }

  advance-IsInBounds :
      (button now progress : ℕ)
      → progress ≤ (eng.config.combos i).length - 1
      → 0 < (eng.config.combos i).length
      → IsInBounds (advance (eng.config.combos i) button now i progress eng)
  unfolding advance
  advance-IsInBounds button now progress small some_long =
      let def = eng.config.combos i in
      let started = if progress == 0 then now else (eng.combo_state i).start_ms in
      let went = λ (n : ℕ). record (eng.combo_state i) { progress = n; start_ms = started } in
      if_split IsInBounds (def.buttons progress == button)
        (λ hit.
          if_split IsInBounds (leb def.length (progress + 1))
            (λ done. completed-IsInBounds (went (progress + 1)) (went 0) (omega arith))
            (λ more. put_combo-IsInBounds eng h i (went (progress + 1)) (ground (arith, more))))
        (λ miss.
          if_split IsInBounds (def.buttons 0 == button)
            (λ again.
              put_combo-IsInBounds eng h i _
                (first_again (eng.config.combos i) button progress small miss again))
            (λ ne.
              put_combo-IsInBounds eng h i (record (eng.combo_state i) { progress = 0 })
                (omega arith)))

  pub match_sequence-IsInBounds : (button now : ℕ) → IsInBounds (match_sequence button now i eng)
  unfolding match_sequence
  match_sequence-IsInBounds button now =
      let def = eng.config.combos i in
      if_split IsInBounds (not (is_sequence def.type) || def.length == 0) (λ skip. h)
        (λ go.
          advance-IsInBounds button now (timed_progress def (eng.combo_state i) now)
            (unfold timed_progress in ground (arith, h.progress i)) (ground (arith, go)))

  pub chord_flag-IsInBounds :
      (fired : Bool)
      → IsInBounds (put_combo eng i (record (eng.combo_state i) { chord_fired = fired }))
  chord_flag-IsInBounds fired =
      put_combo-IsInBounds eng h i (record (eng.combo_state i) { chord_fired = fired })
        (h.progress i)

  pub consume-IsInBounds : (def : ComboDef) → IsInBounds (consume def i eng)
  unfolding consume
  consume-IsInBounds def = if_cases IsInBounds _ (put_button-IsInBounds eng h (def.buttons i) _) h

  pub emit_press-IsInBounds : (type : PressType) → IsInBounds (emit_press eng i type)
  unfolding emit_press
  emit_press-IsInBounds type = enqueue-IsInBounds eng h _
