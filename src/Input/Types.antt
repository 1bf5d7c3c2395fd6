-- ===== src/Input/Types.antt =====
-- The types of firmware/components/core/include/mc_input.h.
use moto_ctrl.Base.{ℕ, Bool, List}

-- `mc_press_event_type_t`
pub data PressType : Type 0 where
  short_press long_press double_press : PressType

-- `mc_combo_type_t`
pub data ComboType : Type 0 where
  chord sequence : ComboType

-- `mc_action_list_t` of mc_types.h
pub record ActionList : Type 0 where
  pub actions : ℕ → ℕ
  pub count : ℕ

-- `mc_input_event_t`: the kind chooses the member of the union. A press has its button, its type and
-- `action_suppressed`; a combo its index and its actions.
pub data InputEvent : Type 0 where
  press : ℕ → PressType → Bool → InputEvent
  combo : ℕ → ActionList → InputEvent

-- `mc_combo_def_t`
pub record ComboDef : Type 0 where
  pub type : ComboType
  pub buttons : ℕ → ℕ
  pub length : ℕ
  pub window_ms : ℕ
  pub actions : ActionList

-- `mc_input_timing_config_t`
pub record Timing : Type 0 where
  pub debounce_ms : ℕ
  pub long_press_ms : ℕ
  pub double_press_gap_ms : ℕ

-- `mc_input_config_t`
pub record InputConfig : Type 0 where
  pub timing : Timing
  pub combos : ℕ → ComboDef
  pub combo_count : ℕ
  pub short_press_actions : ℕ → ActionList
  pub long_press_actions : ℕ → ActionList
  pub double_press_actions : ℕ → ActionList
  pub names : ℕ → List ℕ

-- `mc_button_state_t`
pub record Button : Type 0 where
  pub raw_state : Bool
  pub stable_state : Bool
  pub raw_change_ms : ℕ
  pub press_start_ms : ℕ
  pub long_press_fired : Bool
  pub pending_double : Bool
  pub last_release_ms : ℕ
  pub chord_consumed : Bool

-- `mc_combo_state_t`; nothing reads or writes its `type`.
pub record ComboState : Type 0 where
  pub progress : ℕ
  pub start_ms : ℕ
  pub chord_fired : Bool

-- `mc_input_engine_t`
pub record InputEngine : Type 0 where
  pub config : InputConfig
  pub buttons : ℕ → Button
  pub combo_state : ℕ → ComboState
  pub event_queue : ℕ → InputEvent
  pub event_head : ℕ
  pub event_count : ℕ

-- MC_INPUT_COUNT, MC_COMBO_MAX_DEFS, MC_COMBO_MAX_LEN and MC_INPUT_EVENT_QUEUE_LEN
abbrev pub button_count : ℕ
button_count = 8

abbrev pub combo_max_defs : ℕ
combo_max_defs = 8

abbrev pub combo_max_len : ℕ
combo_max_len = 10

abbrev pub queue_len : ℕ
queue_len = 16

-- What `memset` leaves.
abbrev pub unbound : ActionList
unbound = record { actions = λ _. 0; count = 0 }

abbrev pub button_zero : Button
button_zero = record {
  raw_state = Bool.false;
  stable_state = Bool.false;
  raw_change_ms = 0;
  press_start_ms = 0;
  long_press_fired = Bool.false;
  pending_double = Bool.false;
  last_release_ms = 0;
  chord_consumed = Bool.false;
}

abbrev pub combo_zero : ComboState
combo_zero = record { progress = 0; start_ms = 0; chord_fired = Bool.false }

abbrev pub combo_def_zero : ComboDef
combo_def_zero = record {
  type = chord;
  buttons = λ _. 0;
  length = 0;
  window_ms = 0;
  actions = unbound;
}
