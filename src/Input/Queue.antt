-- ===== src/Input/Queue.antt =====
-- The event queue of firmware/components/core/mc_input.c, and how the engine is set up.
use moto_ctrl.Base.{
  ◌+◌, ◌-◌, ◌%◌, false, Option, none, some, [], leb, ◌==◌, if◌then◌else◌, update, for_range,
}
use moto_ctrl.Input.Types.{
  short_press, InputConfig, InputEngine, InputEvent, press, queue_len, button_count, unbound,
  button_zero, combo_zero, combo_def_zero,
}

-- `mc_input_config_default`
unfoldable pub config_default : InputConfig
config_default = record {
  timing = record { debounce_ms = 20; long_press_ms = 600; double_press_gap_ms = 350 };
  combos = λ _. combo_def_zero;
  combo_count = 0;
  short_press_actions = λ _. unbound;
  long_press_actions = λ _. unbound;
  double_press_actions = λ _. unbound;
  names = λ _. [];
}

-- `mc_input_init`; a zeroed event is a short press of button 0.
unfoldable pub init : InputConfig → InputEngine
init config = record {
  config = config;
  buttons = λ _. button_zero;
  combo_state = λ _. combo_zero;
  event_queue = λ _. press 0 short_press false;
  event_head = 0;
  event_count = 0;
}

-- `mc_input_set_config`
unfoldable pub set_config : InputEngine → InputConfig → InputEngine
unfolding for_range
set_config eng config =
    for_range button_count 0
      (λ b e. record e {
        buttons = update e.buttons b (record (e.buttons b) { chord_consumed = false });
      })
      (record eng { config = config; combo_state = λ _. combo_zero })

-- `enqueue`
unfoldable pub enqueue : InputEngine → InputEvent → InputEngine
enqueue eng evt = if leb queue_len eng.event_count then eng else record eng {
  event_queue = update eng.event_queue ((eng.event_head + eng.event_count) % queue_len) evt;
  event_count = eng.event_count + 1;
}

-- `mc_input_pop_event`: the engine after it, and what it hands out where it returns true.
unfoldable pub pop_event : InputEngine → InputEngine × Option InputEvent
pop_event eng = if eng.event_count == 0 then (eng, none) else (
  record eng { event_head = (eng.event_head + 1) % queue_len; event_count = eng.event_count - 1 },
  some (eng.event_queue eng.event_head),
)
