-- ===== src/Session/Types.antt =====
-- The types of firmware/components/core/include/mc_session.h, and the frames of mc_protocol.h.
use moto_ctrl.Base.{
  ℕ, ℤ, minus_one, Bool, true, false, Option, none, some, List, [], ◌∷◌, ltb, replicate,
  if◌then◌else◌, length,
}
use moto_ctrl.Crypto.{Nacl}
use moto_ctrl.Output.Types.{Engine}
use moto_ctrl.Lock.Types.{Lock}
use moto_ctrl.Keystore.Slots.{Keystore}
use moto_ctrl.Input.Types.{InputEngine}
use moto_ctrl.Diag.Types.{Floats, Readings, Diag}
use moto_ctrl.Ota.Transfer.{Ota}
use moto_ctrl.EventLog.Ring.{Log, append}
use moto_ctrl.Status.Frame.{Status}
use moto_ctrl.Config.{DeviceConfig, Json}

-- `mc_channel_t`; `other_channel` is any other value.
pub data Line : Type 0 where
  status_line auth_line command_line config_line ota_line other_line : Line

-- `mc_session_state_t`
pub data SessionState : Type 0 where
  unauth challenged authed : SessionState

abbrev pub is_authed : SessionState → Bool
is_authed authed = true
is_authed _ = false

abbrev pub is_challenged : SessionState → Bool
is_challenged challenged = true
is_challenged _ = false

-- `mc_session_t`
pub record Session : Type 0 where
  pub state : SessionState
  pub nonce : List ℕ
  pub authed_slot : ℤ
  pub cfg_write_buf : ℕ → ℕ
  pub cfg_write_total : ℕ
  pub cfg_write_got : ℕ
  pub cfg_write_active : Bool
  pub input_learn : Bool
  pub input_learn_suppress_actions : Bool

-- A call of one of the hooks of `mc_app_t`.
pub data HookCall : Type 0 where
  persist_config persist_keystore persist_lock persist_diag_calib : HookCall
  session_authed device_name_changed : HookCall
  log_event : ℕ → ℕ → ℕ → HookCall

-- Which hooks of `mc_app_t` are not NULL. The platform's `fill_status` is a function of the status;
-- `uptime_ms` is what its clock reads when it logs an event.
pub record Hooks : Type 0 where
  pub fill_status : Option (Status → Status)
  pub has_persist_config : Bool
  pub has_persist_keystore : Bool
  pub has_persist_lock : Bool
  pub has_persist_diag_calib : Bool
  pub has_on_session_authed : Bool
  pub has_log_event : Bool
  pub uptime_ms : ℕ
  pub has_on_device_name_changed : Bool

-- `mc_app_t`: what may be NULL on a host that attaches the output engine, the configuration and the
-- keystore. `calls` is what went through the hooks, the newest first; what the platform does in them
-- is not modelled but for the record that `log_event` appends to the event log.
pub record App (S F : Type 0) : Type 0 where
  pub output : Engine
  pub config : DeviceConfig
  pub keystore : Keystore
  pub lock : Option Lock
  pub diag : Option (Diag F)
  pub ota : Option Ota
  pub event_log : Option (Log S)
  pub input : Option InputEngine
  pub hooks : Hooks
  pub calls : List HookCall

-- One frame that goes out: its channel and its bytes, the opcode first.
pub record Frame : Type 0 where
  pub line : Line
  pub bytes : List ℕ

-- What a handler leaves, with the frames in the order in which they went out.
pub record Reply (S F : Type 0) : Type 0 where
  pub session : Session
  pub app : App S F
  pub frames : List Frame

-- What the handler gets from outside: the vendored NaCl, the floats and the JSON codec, and for this
-- call the bytes of the CSPRNG, which may fail, and what the diagnostics read.
pub record World (F : Type 0) : Type 0 where
  pub nacl : Nacl
  pub floats : Floats F
  pub json : Json
  pub random : ℕ → Option (List ℕ)
  pub readings : Readings

-- `mc_session_init`
unfoldable pub init : Session
init = record {
  state = unauth;
  nonce = replicate 32 0;
  authed_slot = minus_one;
  cfg_write_buf = λ _. 0;
  cfg_write_total = 0;
  cfg_write_got = 0;
  cfg_write_active = false;
  input_learn = false;
  input_learn_suppress_actions = false;
}

-- `send_frame`: a payload that does not fit the buffer of 256 bytes is not sent.
abbrev pub send_frame : Line → ℕ → List ℕ → List Frame
send_frame line opcode payload =
    if ltb 255 (length payload) then [] else record { line = line; bytes = opcode ∷ payload } ∷ []

-- `send_result1` and `send_result2`
abbrev pub send_result1 : Line → ℕ → ℕ → List Frame
send_result1 line opcode a = record { line = line; bytes = opcode ∷ a ∷ [] } ∷ []

abbrev pub send_result2 : Line → ℕ → ℕ → ℕ → List Frame
send_result2 line opcode a b = record { line = line; bytes = opcode ∷ a ∷ b ∷ [] } ∷ []

module _ {S : Type 0} where
  -- `log_event_cb` of firmware/main/main.c: what a call of a hook does to the event log.
  abbrev pub log_event_cb : HookCall → ℕ → Option (Log S) → Option (Log S)
  log_event_cb call now log = elim call [
    | persist_config ↦ log
    | persist_keystore ↦ log
    | persist_lock ↦ log
    | persist_diag_calib ↦ log
    | session_authed ↦ log
    | device_name_changed ↦ log
    | log_event type arg0 arg1 ↦ elim log [
      | none ↦ none
      | some l ↦ some (append l type arg0 arg1 now)
    ]
  ]

module _ {S F : Type 0} where
  -- A call of a hook, if there is one.
  abbrev pub hook : Bool → HookCall → App S F → App S F
  hook has c app =
      if has
      then record app {
        calls = c ∷ app.calls;
        event_log = log_event_cb c app.hooks.uptime_ms app.event_log;
      }
      else app

  -- Only frames go out.
  abbrev pub answer : Session → App S F → List Frame → Reply S F
  answer s app frames = record { session = s; app = app; frames = frames }
