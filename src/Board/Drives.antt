-- ===== src/Board/Drives.antt =====
-- The bindings of firmware/main/main.c as runs of the machine of Lock/Machine: they drive the outputs
-- by the calls of mc_output.h alone.
use moto_ctrl.Base.{
  ℕ, ◌≡◌, refl, if◌then◌else◌, sym, ap, ◌∙◌, Bool, not, ◌&&◌, ◌||◌, Option, none, some, List, [],
  ◌∷◌, ◌++◌, for_range_keeps, if_cases, ℤ, pos, negsuc, min, ltb, leb, ◌==◌, ◌+◌, ◌-◌,
}
use moto_ctrl.Crypto.{Nacl}
use moto_ctrl.Output.Types.{local, Config, Engine, output_count}
use moto_ctrl.Output.Drive.{get_state}
use moto_ctrl.Output.Parts.{find_brake_channel, find_indicator_channel}
use moto_ctrl.Output.Trace.{Op, command, alternate, press_hazards, pass_time, engine, cutoff}
use moto_ctrl.Output.Command.{set}
use moto_ctrl.Output.Trace as Trace
use moto_ctrl.Lock.Types.{Lock}
use moto_ctrl.Lock.Machine.{Event, drive, System, step, run}
use moto_ctrl.Lock.Invariant.{IsOwn}
use moto_ctrl.Lock.Soundness.{AllOwn}
use moto_ctrl.Input.Types.{ActionList, InputConfig, InputEngine}
use moto_ctrl.Input.Poll.{differs, button_level}
use moto_ctrl.Board.Bindings.{
  follow, momentary_tick, dispatch_action, dispatch_action_list, action_list_max, toggle_base,
  alternate_base, side_of, channel_is_momentary, partner_is_momentary, is_momentary, is_held,
}
use moto_ctrl.Board.Turn.{follow_brake}

module _ (nacl : Nacl) where
  -- The second is the first after calls of mc_lock.h and mc_output.h, none of which sets the inhibit
  -- behind the lock's back.
  abbrev pub IsRun : System → System → Type 0
  IsRun s s' = (es : List Event) × AllOwn es × (s' ≡ run nacl es s)

  run-append :
      (es fs : List Event) (s : System) → run nacl (es ++ fs) s ≡ run nacl fs (run nacl es s)
  unfolding run
  run-append [] fs s = refl
  run-append (e ∷ es) fs s = run-append es fs (step nacl e s)

  AllOwn-append : (es fs : List Event) → AllOwn es → AllOwn fs → AllOwn (es ++ fs)
  AllOwn-append [] fs _ h = h
  AllOwn-append (e ∷ es) fs (own, owns) h = (own, AllOwn-append es fs owns h)

  pub no_events : (s : System) → IsRun s s
  unfolding run
  no_events s = ([], tt, refl)

  pub one_event : (e : Event) (s : System) → IsOwn e → IsRun s (step nacl e s)
  unfolding run
  one_event e s own = (e ∷ [], (own, tt), refl)

  pub events_then : (a b c : System) → IsRun a b → IsRun b c → IsRun a c
  events_then a b c (es, own, e) (fs, own', f) =
      (es ++ fs, AllOwn-append es fs own own', f ∙ ap (run nacl fs) e ∙ sym (run-append es fs a))

  module _ (lock : Lock) (from : Engine) where
    -- The outputs alone were driven.
    abbrev pub Drives : Engine → Type 0
    Drives eng = IsRun (lock, from) (lock, eng)

    pub op-Drives :
        (op : Op) (eng : Engine) → IsOwn (drive op) → Drives eng → Drives (Trace.step op eng)
    unfolding step
    op-Drives op eng own h = events_then _ _ _ h (one_event (drive op) (lock, eng) own)

    set-Drives : (ch : ℕ) (on : Bool) (eng : Engine) → Drives eng → Drives (set eng ch on local).1
    unfolding Trace.step
    set-Drives ch on eng h = op-Drives (command ch on local) eng tt h

    module _ (outputs : Config) where
      toggle-Drives :
          (ch : ℕ) (eng : Engine)
          → Drives eng
          → Drives (set eng ch (not (get_state eng ch)) local).1
      toggle-Drives ch eng h = set-Drives ch (not (get_state eng ch)) eng h

      side-Drives :
          (found : Option ℕ) (eng : Engine)
          → Drives eng
          → Drives (elim found [
            | none ↦ eng
            | some ch ↦
                if channel_is_momentary outputs ch
                then eng
                else (set eng ch (not (get_state eng ch)) local).1
          ])
      side-Drives none eng h = h
      side-Drives (some ch) eng h =
          if_cases Drives (channel_is_momentary outputs ch) h (toggle-Drives ch eng h)

      dispatch_action-Drives :
          (t action : ℕ) (eng : Engine) → Drives eng → Drives (dispatch_action outputs t action eng)
      unfolding dispatch_action
      dispatch_action-Drives t action eng h =
          let ch = action - toggle_base in
          let pair = action - alternate_base in
          if_cases Drives (leb toggle_base action && ltb action (toggle_base + output_count))
            (if_cases Drives (channel_is_momentary outputs ch) h (toggle-Drives ch eng h))
            (if_cases Drives
              (leb alternate_base action && ltb action (alternate_base + output_count))
              (if_cases Drives
                (channel_is_momentary outputs pair
                  || partner_is_momentary outputs (outputs.channels pair).alternate_channel)
                h (unfold Trace.step in op-Drives (alternate pair local) eng tt h))
              (if_cases Drives (action == 1 || action == 2)
                (side-Drives (find_indicator_channel outputs (side_of action)) eng h)
                (if_cases Drives (action == 3)
                  (unfold Trace.step in op-Drives (press_hazards t) eng tt h) h)))

      pub dispatch_action_list-Drives :
          (list : ActionList) (t : ℕ) (eng : Engine)
          → Drives eng
          → Drives (dispatch_action_list outputs list t eng)
      unfolding dispatch_action_list
      dispatch_action_list-Drives list t eng h =
          for_range_keeps Drives (λ i. dispatch_action outputs t (list.actions i))
            (λ i e h'. dispatch_action-Drives t (list.actions i) e h')
            (min list.count action_list_max) 0 eng h

      follow-Drives :
          (inputs : InputConfig) (input : InputEngine) (suppressed : Bool) (ch : ℕ) (eng : Engine)
          → Drives eng
          → Drives (follow outputs inputs input suppressed ch eng)
      unfolding follow
      follow-Drives inputs input suppressed ch eng h =
          let held = is_held outputs inputs input suppressed ch in
          if_cases Drives (not (is_momentary (outputs.channels ch).behaviour)) h
            (if_cases Drives (differs held (get_state eng ch)) (set-Drives ch held eng h) h)

      pub momentary_tick-Drives :
          (inputs : InputConfig) (input : InputEngine) (suppressed : Bool) (eng : Engine)
          → Drives eng
          → Drives (momentary_tick outputs inputs input suppressed eng)
      unfolding momentary_tick
      momentary_tick-Drives inputs input suppressed eng h =
          for_range_keeps Drives (follow outputs inputs input suppressed)
            (λ ch e h'. follow-Drives inputs input suppressed ch e h') output_count 0 eng h

      brake-Drives :
          (brake : ℤ) (found : Option ℕ) (input : InputEngine) (eng : Engine)
          → Drives eng
          → Drives (elim brake [
            | negsuc _ ↦ eng
            | pos i ↦ elim found [
              | none ↦ eng
              | some ch ↦
                  let asserted = button_level input i in
                  if differs asserted (get_state eng ch) then (set eng ch asserted local).1 else eng
            ]
          ])
      brake-Drives (negsuc n) found input eng h = h
      brake-Drives (pos i) none input eng h = h
      brake-Drives (pos i) (some ch) input eng h =
          if_cases Drives (differs (button_level input i) (get_state eng ch))
            (set-Drives ch (button_level input i) eng h) h

      pub follow_brake-Drives :
          (input : InputEngine) (eng : Engine)
          → Drives eng
          → Drives (follow_brake outputs input eng)
      unfolding follow_brake
      follow_brake-Drives input eng h =
          brake-Drives outputs.brake_switch_input (find_brake_channel outputs) input eng h
