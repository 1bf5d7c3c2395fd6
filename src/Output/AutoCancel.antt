-- ===== src/Output/AutoCancel.antt =====
-- The auto-cancel timer of the indicators, from the command to the tick that ends it.
use moto_ctrl.Base.{
  ℕ, ◌<◌, ◌≡◌, ◌≢◌, ap, ◌∙◌, ◌+◌, Bool, true, false, not, ◌||◌, ◌&&◌, Bool-cases, List, [], ◌∷◌,
  ltb, leb, ◌==◌, if◌then◌else◌, u32_mod, add32, sub32, inl, inr, arith,
}
use moto_ctrl.Output.Types.{Source, ok, Engine, channel, output_count}
use moto_ctrl.Output.Parts.{is_turn}
use moto_ctrl.Output.Command.{set}
use moto_ctrl.Output.Clock.{tick}
use moto_ctrl.Output.Switch.{switched, on-switch, deadline-switch}
use moto_ctrl.Output.Guards.{set-cases}
use moto_ctrl.Output.Trace.{cell-tick}

module _ (s : Engine) (ch now : ℕ) (src : Source) (accepted : (set s ch true src).0 ≡ ok)
    (turn : is_turn (channel s ch) ≡ true) (armed : 0 < s.config.turn_auto_cancel_ms) where
  on-tick-set : (channel (tick now (set s ch true src).1) ch).commanded_on ≡ (
      if add32 s.last_tick_ms s.config.turn_auto_cancel_ms == 0
      then true
      else ltb 2147483647 (sub32 now (add32 s.last_tick_ms s.config.turn_auto_cancel_ms)))
  unfolding switched
  on-tick-set = elim (set-cases s ch true src) [
    | inl (refused, _) ↦ absurd (refused accepted)
    | inr (_, e, by) ↦ ground (
      arith,
      ap (λ (t : Engine). (channel t ch).commanded_on) e,
      ap (λ (t : Engine). t.turn_auto_cancel_deadline_ms ch) e,
      on-switch ch true s by.in_range ch by.in_range,
      deadline-switch ch true s by.in_range,
      cell-tick now (set s ch true src).1 ch by.in_range,
    )
  ]

-- The ticks at the times of a list, from the first on.
unfoldable pub ticks : List ℕ → Engine → Engine
ticks [] s = s
ticks (now ∷ times) s = ticks times (tick now s)

-- One of the times is at or past `ms` after `start`, on the clock that wraps.
unfoldable pub any_past : ℕ → ℕ → List ℕ → Bool
any_past start ms [] = false
any_past start ms (now ∷ times) = leb ms (sub32 now start) || any_past start ms times

-- The times are of the clock, and less than 2 ^ 31 ms after `start`.
unfoldable pub all_near : ℕ → List ℕ → Bool
all_near start [] = true
all_near start (now ∷ times) =
    ltb now u32_mod && ltb (sub32 now start) 2147483648 && all_near start times

module _ (ch start ms : ℕ) (here : ch < output_count) (small : ms < 2147483648)
    (fits : start < u32_mod) (proper : add32 start ms ≢ 0) where
  -- An indicator that is off, with no deadline pending, stays off.
  ticks-done :
      (times : List ℕ) (s : Engine)
      → (channel s ch).commanded_on ≡ false
      → s.turn_auto_cancel_deadline_ms ch ≡ 0
      → (channel (ticks times s) ch).commanded_on ≡ false
  unfolding ticks
  ticks-done [] s off none_set = off
  ticks-done (now ∷ times) s off none_set =
      let next = cell-tick now s ch here in
      ticks-done times (tick now s) (ground (arith, next)) (ground (arith, next))

  -- An indicator that is on with its deadline pending goes off at it.
  ticks-pending :
      (times : List ℕ) (s : Engine)
      → (channel s ch).commanded_on ≡ true
      → s.turn_auto_cancel_deadline_ms ch ≡ add32 start ms
      → all_near start times ≡ true
      → (channel (ticks times s) ch).commanded_on ≡ not (any_past start ms times)
  unfolding ticks any_past all_near
  ticks-pending [] s on set near = on
  ticks-pending (now ∷ times) s on set near =
      let next = cell-tick now s ch here in
      elim (Bool-cases (leb ms (sub32 now start))) [
        | inl past ↦ rw past (
            ticks-done times (tick now s) (ground (arith, next, past)) (ground (arith, next, past)))
        | inr before ↦ rw before (
            ticks-pending times (tick now s) (ground (arith, next, before))
              (ground (arith, next, before)) (ground arith))
      ]

-- After an accepted command that switches an indicator on, and then nothing but ticks, the indicator
-- is on as long as each of them is less than the auto-cancel time after the tick before the command,
-- and off from the first one at or past it, also across the wrap of the clock. The auto-cancel time
-- is not 0, it and the times of the ticks are less than 2 ^ 31 ms after that tick, and the deadline
-- does not fall on the clock's 0.
pub ticks-cancel :
    (s : Engine) (ch : ℕ) (src : Source) (times : List ℕ)
    → (set s ch true src).0 ≡ ok
    → is_turn (channel s ch) ≡ true
    → 0 < s.config.turn_auto_cancel_ms
    → s.config.turn_auto_cancel_ms < 2147483648
    → s.last_tick_ms < u32_mod
    → add32 s.last_tick_ms s.config.turn_auto_cancel_ms ≢ 0
    → all_near s.last_tick_ms times ≡ true
    → (channel (ticks times (set s ch true src).1) ch).commanded_on
      ≡ not (any_past s.last_tick_ms s.config.turn_auto_cancel_ms times)
unfolding switched
ticks-cancel s ch src times accepted turn armed small fits proper near =
    elim (set-cases s ch true src) [
      | inl (refused, _) ↦ absurd (refused accepted)
      | inr (_, e, by) ↦
          ticks-pending ch s.last_tick_ms s.config.turn_auto_cancel_ms by.in_range small fits proper
            times (set s ch true src).1
            (ap (λ (t : Engine). (channel t ch).commanded_on) e
              ∙ ground (arith, on-switch ch true s by.in_range ch by.in_range))
            (ap (λ (t : Engine). t.turn_auto_cancel_deadline_ms ch) e
              ∙ ground (arith, deadline-switch ch true s by.in_range))
            near
    ]

-- Where the deadline falls on the clock's 0, which also stands for "none pending", the next tick
-- leaves the indicator on, however late it comes.
pub auto_cancel_lost :
    (s : Engine) (ch now : ℕ) (src : Source)
    → (set s ch true src).0 ≡ ok
    → is_turn (channel s ch) ≡ true
    → 0 < s.config.turn_auto_cancel_ms
    → s.last_tick_ms + s.config.turn_auto_cancel_ms ≡ u32_mod
    → (channel (tick now (set s ch true src).1) ch).commanded_on ≡ true
auto_cancel_lost s ch now src accepted turn armed meets =
    ground (arith, on-tick-set s ch now src accepted turn armed)
