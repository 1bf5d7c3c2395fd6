-- ===== src/Lock/Typing.antt =====
-- Typing the cheat-code on the buttons of a locked bike.
use moto_ctrl.Base.{
  ℕ, ◌+◌, ◌<◌, ◌≤◌, ◌≡◌, refl, ap, ◌∙◌, Bool, true, false, not, ◌&&◌, List, [], ◌∷◌, ◌++◌, length,
  length-append, length-zero, ==-eq, ==-refl, suc, if◌then◌else◌, arith, Bool-cases, inl, inr, ◌⊎◌,
  ltb, ◌==◌, elapsed_at_least,
}
use mathlib.Core.List.{append_assoc}
use moto_ctrl.Crypto.{Nacl}
use moto_ctrl.Output.Types.{Engine, input_count}
use moto_ctrl.Output.Clock.{set_immobilized}
use moto_ctrl.Lock.Types.{unlocked, LockConfig, Lock, match}
use moto_ctrl.Lock.Moves.{is_locked, enter_unlocked}
use moto_ctrl.Lock.Cheatcode.{cheatcode_press, buffer_press, judge, test_cheatcode}
use moto_ctrl.Lock.Machine.{Event, press, step, run}
use moto_ctrl.Lock.Invariant.{immobilized-turn_key}

-- The presses of buttons, each with its time.
abbrev pub typed : List (ℕ × ℕ) → List Event
typed [] = []
typed ((now, button) ∷ keys) = press now button ∷ typed keys

abbrev pub buttons_of : List (ℕ × ℕ) → List ℕ
buttons_of [] = []
buttons_of ((now, button) ∷ keys) = button ∷ buttons_of keys

-- Each key is a button of the bike, pressed less than `window` milliseconds after `start`.
unfoldable pub is_prompt : ℕ → ℕ → List (ℕ × ℕ) → Bool
is_prompt start window [] = true
is_prompt start window ((now, button) ∷ keys) =
    not (elapsed_at_least now start window) && ltb button input_count && is_prompt start window keys

-- The lock waits for the rest of a code of which `entry` was typed since `start`.
record Typing (start : ℕ) (entry : List ℕ) (l : Lock) : Type 0 where
  holds : is_locked l.state ≡ true
  is_set : l.config.cheatcode_set ≡ true
  waits : l.backoff_active ≡ false
  typed_so_far : l.entry ≡ entry
  since : (entry ≡ []) ⊎ (l.entry_start_ms ≡ start)

-- The first key starts the entry; a later one falls in the window that the first one opened.
abbrev in_turn : ℕ → ℕ → List ℕ → ℕ → Bool
in_turn start window pre now =
    if length pre == 0 then now == start else not (elapsed_at_least now start window)

module _ (start : ℕ) (pre : List ℕ) (l : Lock) (now button : ℕ) (h : Typing start pre l)
    (prompt : in_turn start l.config.cheatcode_window_ms pre now ≡ true) where
  buffer_press-types :
      length pre < 10
      → let b = buffer_press l now button in
        (b.entry ≡ pre ++ button ∷ []) × (b.entry_start_ms ≡ start)
  unfolding buffer_press
  buffer_press-types room = elim h.since [
    | inl e ↦ ground (arith, h.typed_so_far, ap length h.typed_so_far, e, ap length e)
    | inr e ↦ elim (Bool-cases (length pre == 0)) [
      | inl z ↦ ground (
        arith,
        h.typed_so_far,
        ap length h.typed_so_far,
        e,
        length-zero pre (==-eq (length pre) 0 z),
      )
      | inr z ↦ ground (arith, h.typed_so_far, ap length h.typed_so_far, e)
    ]
  ]

  -- A key that does not complete the code is kept, and nothing else happens.
  press-types :
      (nacl : Nacl) (s : Engine)
      → length pre < 10
      → button < input_count
      → length pre + 1 < l.config.cheatcode_len
      → let (_, l', s') = cheatcode_press nacl l s now button in
        Typing start (pre ++ button ∷ []) l' × (l'.config ≡ l.config) × (s' ≡ s)
  unfolding cheatcode_press buffer_press
  press-types nacl s room known more =
      let b = buffer_press-types room in
      let n = length-append pre (button ∷ []) in
      (
        record {
          holds = ground (arith, h.holds);
          is_set = ground (arith, h.is_set);
          waits = ground (arith, h.waits);
          typed_so_far = ground (arith, b, h.holds, h.is_set, h.waits, ap length b.0);
          since = inr (ground (arith, b, h.holds, h.is_set, h.waits, ap length b.0));
        },
        ground arith,
        ground (arith, b, h.holds, h.is_set, h.waits, ap length b.0),
      )

  -- The key that completes the code unlocks.
  press-completes :
      (nacl : Nacl) (s : Engine)
      → length pre < 10
      → button < input_count
      → test_cheatcode nacl l.config (pre ++ button ∷ []) ≡ true
      → let (o, l', s') = cheatcode_press nacl l s now button in
        (o ≡ match) × (l'.state ≡ unlocked) × (s'.immobilized ≡ false)
  unfolding cheatcode_press judge enter_unlocked set_immobilized test_cheatcode
  press-completes nacl s room known right =
      let b = buffer_press-types room in
      let n = length-append pre (button ∷ []) in
      ground (
        arith,
        b,
        h.holds,
        h.is_set,
        h.waits,
        ap length b.0,
        n,
        immobilized-turn_key (set_immobilized false s),
        ap (λ e. test_cheatcode nacl l.config e) b.0,
      )

length-buttons_of : (keys : List (ℕ × ℕ)) → length (buttons_of keys) ≡ length keys
length-buttons_of [] = refl
length-buttons_of ((now, button) ∷ keys) = ap suc (length-buttons_of keys)

length-test_cheatcode :
    (nacl : Nacl) (c : LockConfig) (code : List ℕ)
    → test_cheatcode nacl c code ≡ true
    → length code ≡ c.cheatcode_len
unfolding test_cheatcode
length-test_cheatcode nacl c code right = ground arith

in_turn-next :
    (start window w now button : ℕ) (pre : List ℕ)
    → w ≡ window
    → not (elapsed_at_least now start window) ≡ true
    → in_turn start w (pre ++ button ∷ []) now ≡ true
in_turn-next start window w now button pre same prompt =
    ground (arith, length-append pre (button ∷ []))

module _ (nacl : Nacl) (start : ℕ) where
  -- The rest of the code, each key in the window.
  run-types :
      (keys : List (ℕ × ℕ)) (now button : ℕ) (pre : List ℕ) (l : Lock) (s : Engine)
      → Typing start pre l
      → in_turn start l.config.cheatcode_window_ms pre now ≡ true
      → button < input_count
      → is_prompt start l.config.cheatcode_window_ms keys ≡ true
      → length pre + 1 + length keys ≤ 10
      → test_cheatcode nacl l.config (pre ++ button ∷ buttons_of keys) ≡ true
      → let (l', s') = run nacl (press now button ∷ typed keys) (l, s) in
        (l'.state ≡ unlocked) × (s'.immobilized ≡ false)
  unfolding run step is_prompt
  run-types [] now button pre l s h turn known prompt room right =
      let (_, released, free) =
        press-completes start pre l now button h turn nacl s (omega arith) known right in
      (released, free)
  run-types ((now', button') ∷ keys) now button pre l s h turn known prompt room right =
      let (_, l', s') = cheatcode_press nacl l s now button in
      let n = length-append pre (button ∷ button' ∷ buttons_of keys) in
      let m = length-append pre (button ∷ []) in
      let fits = length-test_cheatcode nacl l.config _ right in
      let (next, same, _) =
        press-types start pre l now button h turn nacl s (omega arith) known
          (omega (arith, n, fits)) in
      let window = ap (λ (c : LockConfig). c.cheatcode_window_ms) same in
      run-types keys now' button' (pre ++ button ∷ []) l' s' next
        (in_turn-next start l.config.cheatcode_window_ms l'.config.cheatcode_window_ms now' button
          pre window (ground arith))
        (ground arith) (ap (λ w. is_prompt start w keys) window ∙ ground arith) (omega (arith, m))
        (ap (λ c. test_cheatcode nacl c (pre ++ button ∷ [] ++ button' ∷ buttons_of keys)) same
          ∙ ap (test_cheatcode nacl l.config)
              (append_assoc pre (button ∷ []) (button' ∷ buttons_of keys))
          ∙ right)

-- On a locked bike that waits for no back-off, the code that was set, typed on the buttons from the
-- start with each key in the window that the first one opens, unlocks and lifts the inhibit.
pub run-unlocks :
    (nacl : Nacl) (l : Lock) (s : Engine) (start button : ℕ) (keys : List (ℕ × ℕ))
    → is_locked l.state ≡ true
    → l.backoff_active ≡ false
    → l.entry ≡ []
    → button < input_count
    → is_prompt start l.config.cheatcode_window_ms keys ≡ true
    → length keys < 10
    → test_cheatcode nacl l.config (button ∷ buttons_of keys) ≡ true
    → let (l', s') = run nacl (press start button ∷ typed keys) (l, s) in
      (l'.state ≡ unlocked) × (s'.immobilized ≡ false)
unfolding test_cheatcode
run-unlocks nacl l s start button keys holds waits fresh known prompt room right =
    run-types nacl start keys start button [] l s
      (record {
        holds = holds;
        is_set = ground arith;
        waits = waits;
        typed_so_far = fresh;
        since = inl refl;
      })
      (==-refl start) known prompt (omega arith) right
