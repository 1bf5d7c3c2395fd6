-- ===== src/Board/Queue.antt =====
-- The event loop of `app_task` (firmware/main/main.c) leaves no event behind.
use moto_ctrl.Base.{ℕ, zero, suc, ◌≤◌, ◌≡◌, refl, ap, Option, none, some, arith}
use moto_ctrl.Crypto.{Nacl}
use moto_ctrl.Input.Types.{InputEvent, InputEngine, press, combo}
use moto_ctrl.Input.Queue.{pop_event}
use moto_ctrl.Board.Turn.{Board, Moment, feed_cheatcode, handle_event, drain}

popped_count :
    (eng : InputEngine) (n : ℕ)
    → eng.event_count ≤ suc n
    → ((pop_event eng).1 ≡ none → eng.event_count ≡ 0) × ((pop_event eng).0.event_count ≤ n)
unfolding pop_event
popped_count eng n few = ground (arith, few)

module _ {F : Type 0} (nacl : Nacl) (m : Moment) where
  input-feed_cheatcode :
      (now button : ℕ) (b : Board F) → (feed_cheatcode nacl now button b).input ≡ b.input
  unfolding feed_cheatcode
  input-feed_cheatcode now button b = ground arith

  input-handle_event :
      (evt : InputEvent) (b : Board F) → (handle_event nacl m evt b).input ≡ b.input
  unfolding handle_event
  input-handle_event (press button type suppressed) b =
      ground (arith, input-feed_cheatcode m.now button b)
  input-handle_event (combo i actions) b = refl

  abbrev IsEmpty : Board F → Type 0
  IsEmpty b = b.input.event_count ≡ 0

  taken-IsEmpty :
      (fuel : ℕ) (b : Board F)
      → ((b' : Board F) → b'.input.event_count ≤ fuel → IsEmpty (drain fuel nacl m b'))
      → (next : Option InputEvent) → (next ≡ none → b.input.event_count ≡ 0)
      → (pop_event b.input).0.event_count ≤ fuel
      → IsEmpty (elim next [
        | none ↦ b
        | some evt ↦
            drain fuel nacl m (handle_event nacl m evt (record b { input = (pop_event b.input).0 }))
      ])
  taken-IsEmpty fuel b rest none empty few = empty refl
  taken-IsEmpty fuel b rest (some evt) empty few =
      let popped = record b { input = (pop_event b.input).0 } in
      let same = ap (λ (e : InputEngine). e.event_count) (input-handle_event evt popped) in
      rest (handle_event nacl m evt popped) (omega (arith, same))

  -- The loop over the events ends with an empty queue: as much fuel as there are events is enough,
  -- since handling an event never queues another one.
  pub drain-empties :
      (fuel : ℕ) (b : Board F)
      → b.input.event_count ≤ fuel
      → (drain fuel nacl m b).input.event_count ≡ 0
  unfolding drain
  drain-empties zero b few = omega arith
  drain-empties (suc fuel) b few =
      let counted = popped_count b.input fuel few in
      taken-IsEmpty fuel b (drain-empties fuel) (pop_event b.input).1 counted.0 counted.1
