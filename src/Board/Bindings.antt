-- ===== src/Board/Bindings.antt =====
-- What a button does: the bindings of firmware/main/main.c. `outputs` and `inputs` are the members of
-- `s_config`, which main.c keeps beside the engines; a binding acts on the output engine alone.
use moto_ctrl.Base.{
  ℕ, ◌+◌, ◌-◌, ℤ, pos, negsuc, Bool, true, false, not, ◌&&◌, ◌||◌, Option, none, some, ltb, leb,
  ◌==◌, if◌then◌else◌, min, any_from, for_range,
}
use moto_ctrl.Output.Types.{
  Behaviour, momentary, Side, left, right, local, Config, Engine, output_count,
}
use moto_ctrl.Output.Drive.{get_state}
use moto_ctrl.Output.Parts.{find_indicator_channel}
use moto_ctrl.Output.Command.{set, alternate_press}
use moto_ctrl.Output.Hazards.{hazard_press}
use moto_ctrl.Input.Types.{
  ActionList, unbound, PressType, short_press, long_press, double_press, InputConfig, InputEngine,
  button_count,
}
use moto_ctrl.Input.Matcher.{is_chord}
use moto_ctrl.Input.Poll.{differs, hold_active, chord_held}

-- MC_ACTION_LIST_MAX, MC_ACTION_OUTPUT_TOGGLE_BASE and MC_ACTION_OUTPUT_ALTERNATE_BASE
abbrev pub action_list_max : ℕ
action_list_max = 4

abbrev pub toggle_base : ℕ
toggle_base = 0x100

abbrev pub alternate_base : ℕ
alternate_base = 0x200

abbrev pub is_momentary : Behaviour → Bool
is_momentary momentary = true
is_momentary _ = false

-- The side of MC_ACTION_TURN_L_TOGGLE or MC_ACTION_TURN_R_TOGGLE
abbrev pub side_of : ℕ → Side
side_of action = if action == 1 then left else right

abbrev pub is_channel : Option ℕ → ℕ → Bool
is_channel none ch = false
is_channel (some found) ch = found == ch

-- `binding_targets_channel`
unfoldable pub binding_targets : Config → ActionList → ℕ → Bool
binding_targets outputs list ch = any_from (min list.count action_list_max) 0 (λ i.
    let a = list.actions i in
    (leb toggle_base a && a - toggle_base == ch)
    || ((a == 1 || a == 2) && is_channel (find_indicator_channel outputs (side_of a)) ch))

-- `channel_is_momentary`
unfoldable pub channel_is_momentary : Config → ℕ → Bool
channel_is_momentary outputs ch =
    ltb ch output_count && is_momentary (outputs.channels ch).behaviour

-- `held` of `momentary_tick`
unfoldable pub is_held : Config → InputConfig → InputEngine → Bool → ℕ → Bool
is_held outputs inputs input suppressed ch =
    not suppressed
    && (any_from button_count 0
          (λ b. binding_targets outputs (inputs.long_press_actions b) ch && hold_active input b)
        || any_from inputs.combo_count 0 (λ i.
          is_chord (inputs.combos i).type
          && binding_targets outputs (inputs.combos i).actions ch
          && chord_held input i))

-- One round of `momentary_tick`.
unfoldable pub follow : Config → InputConfig → InputEngine → Bool → ℕ → Engine → Engine
follow outputs inputs input suppressed ch eng =
    let held = is_held outputs inputs input suppressed ch in
    if not (is_momentary (outputs.channels ch).behaviour)
    then eng
    else if differs held (get_state eng ch)
    then (set eng ch held local).1
    else eng

-- `momentary_tick`; `suppressed` is what `gatt_svr_input_actions_suppressed` answers.
unfoldable pub momentary_tick : Config → InputConfig → InputEngine → Bool → Engine → Engine
momentary_tick outputs inputs input suppressed eng =
    for_range output_count 0 (follow outputs inputs input suppressed) eng

-- Whether the partner of an alternating pair is momentary.
abbrev pub partner_is_momentary : Config → ℤ → Bool
partner_is_momentary outputs (negsuc _) = false
partner_is_momentary outputs (pos partner) = channel_is_momentary outputs partner

abbrev toggled : ℕ → Engine → Engine
toggled ch eng = (set eng ch (not (get_state eng ch)) local).1

-- `dispatch_action`, of which no caller uses the result.
unfoldable pub dispatch_action : Config → ℕ → ℕ → Engine → Engine
dispatch_action outputs t action eng =
    if leb toggle_base action && ltb action (toggle_base + output_count)
    then (let ch = action - toggle_base in
        if channel_is_momentary outputs ch then eng else toggled ch eng)
    else if leb alternate_base action && ltb action (alternate_base + output_count)
    then (let ch = action - alternate_base in
        if channel_is_momentary outputs ch
          || partner_is_momentary outputs (outputs.channels ch).alternate_channel
        then eng
        else (alternate_press eng ch local).1)
    else if action == 1 || action == 2
    then elim (find_indicator_channel outputs (side_of action)) [
      | none ↦ eng
      | some ch ↦ if channel_is_momentary outputs ch then eng else toggled ch eng
    ]
    else if action == 3
    then hazard_press t eng
    else eng

-- `dispatch_action_list`
unfoldable pub dispatch_action_list : Config → ActionList → ℕ → Engine → Engine
dispatch_action_list outputs list t eng =
    for_range (min list.count action_list_max) 0 (λ i. dispatch_action outputs t (list.actions i))
      eng

-- `actions_for_press`
unfoldable pub actions_for_press : InputConfig → ℕ → PressType → ActionList
actions_for_press inputs button type = if leb button_count button then unbound else elim type [
  | short_press ↦ inputs.short_press_actions button
  | long_press ↦ inputs.long_press_actions button
  | double_press ↦ inputs.double_press_actions button
]
