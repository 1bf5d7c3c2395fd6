-- ===== src/Input/Tests.antt =====
-- Thumbs at work on the engine of firmware/components/core/mc_input.c.
use moto_ctrl.Base.{
  ℕ, ◌≡◌, refl, Bool, true, false, List, [], ◌∷◌, arith, ltb, ◌==◌, if◌then◌else◌, any, any_from,
  elapsed_at_least,
}
use moto_ctrl.Input.Types.{
  chord, sequence, short_press, long_press, press, unbound, ComboDef, combo_def_zero, InputConfig,
  InputEngine,
}
use moto_ctrl.Input.Queue.{config_default, init}
use moto_ctrl.Input.Poll.{poll, button_level, activity_pending}
use moto_ctrl.Input.Fifo.{QueueOp, push, pop, IsRing, pending, run_list, run-refines}
use moto_ctrl.Input.Fifo as Fifo
use moto_ctrl.Input.Debounce.{Poll, times, run-settles}
use moto_ctrl.Input.Debounce as Debounce
use moto_ctrl.Input.Bounds.{
  IsInArrays, InputOp, poll_at, take_event, reconfigure, run, run-IsInArrays,
}
use moto_ctrl.Input.Held.{AllHeld, run-AllHeld}
use moto_ctrl.Input.Quiet.{poll_idle}

-- Buttons 0 and 1 at once, and button 2 twice.
abbrev combos : ℕ → ComboDef
combos i =
    if i == 0
    then record { type = chord; buttons = λ k. k; length = 2; window_ms = 100; actions = unbound }
    else if i == 1
    then record {
      type = sequence;
      buttons = λ k. 2;
      length = 2;
      window_ms = 3000;
      actions = unbound;
    }
    else combo_def_zero

unfoldable config : InputConfig
unfolding config_default
config = record config_default { combos = combos; combo_count = 2 }

unfoldable fresh : InputEngine
unfolding init config
fresh = init config

fresh-IsRing : IsRing fresh
unfolding fresh init
fresh-IsRing = record { few = omega arith; head = omega arith }

abbrev queue_ops : List QueueOp
queue_ops = push (press 1 short_press false) ∷ push (press 2 long_press true) ∷ pop ∷ pop ∷ pop ∷ []

run-refines_example :
    ((Fifo.run queue_ops fresh).0, pending (Fifo.run queue_ops fresh).1)
    ≡ run_list queue_ops (pending fresh)
run-refines_example = run-refines queue_ops fresh fresh-IsRing

abbrev thumb : ℕ → Bool
thumb b = b == 3

-- A press of button 3, read every ten milliseconds.
abbrev later_polls : List Poll
later_polls = (110, thumb) ∷ (120, thumb) ∷ (130, thumb) ∷ []

run-settles_example : button_level (Debounce.run ((100, thumb) ∷ later_polls) fresh) 3 ≡ (
    if any (λ t. elapsed_at_least t 100 fresh.config.timing.debounce_ms) (times later_polls)
    then true
    else button_level fresh 3)
run-settles_example =
    run-settles 3 (omega arith) true 100 thumb later_polls fresh (unfold fresh init in refl) refl
      (refl, (refl, (refl, tt)))

abbrev both : ℕ → Bool
both b = ltb b 2

abbrev squeeze : List InputOp
squeeze = poll_at 100 both ∷ poll_at 130 both ∷ take_event ∷ reconfigure config_default ∷ []

run-IsInArrays_example : IsInArrays (run squeeze (init config))
run-IsInArrays_example = run-IsInArrays config squeeze

run-AllHeld_example : AllHeld (run (poll_at 100 both ∷ poll_at 130 both ∷ []) (init config))
run-AllHeld_example = run-AllHeld config (poll_at 100 both ∷ poll_at 130 both ∷ [])

calm : activity_pending fresh ≡ false
unfolding activity_pending fresh init config any_from
calm = refl

poll_idle_example : poll fresh 500 (λ b. false) ≡ fresh
poll_idle_example = poll_idle fresh 500 (λ b. false) calm (λ b lt. refl)
