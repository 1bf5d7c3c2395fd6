-- ===== src/Session/Tests.antt =====
-- A client at work on the motorcycle of Output/Bike.
use moto_ctrl.Base.{
  ℕ, suc, ◌/◌, ◌%◌, ◌≡◌, refl, true, false, none, some, List, [], ◌∷◌, ◌++◌, arith, length, take,
  replicate, ◌==◌, any_from, subst, ap, if◌then◌else◌, same_bytes, find_from, for_range,
}
use moto_ctrl.Crypto.{Nacl, verify}
use moto_ctrl.Output.Settings.{config_validate, count_role, pair_is_bad, pair_is_ambiguous}
use moto_ctrl.Output.Bike.{bike, bike_config}
use moto_ctrl.Keystore.Slots.{Keystore, blank_slot, find_verifying}
use moto_ctrl.EventLog.Ring.{Event, Log, IsKeeping}
use moto_ctrl.EventLog.History.{available}
use moto_ctrl.EventLog.Tests.{Flash, first, short_log, short_log-Holds, flash_hal-IsKeeping}
use moto_ctrl.Diag.Tests.{whole}
use moto_ctrl.Input.Queue as Queue
use moto_ctrl.Config.{DeviceConfig, Json, loaded, config_default}
use moto_ctrl.Session.Types.{
  auth_line, command_line, challenged, is_authed, Session, Hooks, App, World, init,
}
use moto_ctrl.Session.Result
use moto_ctrl.Session.Auth.{auth_response, auth_begin, handle_auth}
use moto_ctrl.Session.Commands.{transfer}
use moto_ctrl.Session.Config.{any_flag, write_commit, write_chunk, commit, write_result, bytes_from}
use moto_ctrl.Session.Events.{send_chunks, total16}
use moto_ctrl.Session.Dispatch.{handle}
use moto_ctrl.Session.Gate.{IsGated, handle-IsGated}
use moto_ctrl.Session.History.{Message, run, Authenticates, Issued, run-authenticated}
use moto_ctrl.Session.Chunks.{joined, Indexed, send_chunks-available}
use moto_ctrl.Session.Staging.{begin, upload, chunk_body, upload-parses, commit-with_gap}
use moto_ctrl.Session.Commit.{IsApplied, commit-IsApplied}
use moto_ctrl.Session.Ownership.{IsUnowned, transfer-IsUnowned}

-- A signature is good if it opens with the key.
abbrev toy : Nacl
toy = record {
  hashblocks = λ h bytes. (h, length bytes % 128);
  sign_open = λ msg key. same_bytes (take 1 msg) key;
}

abbrev phone : List ℕ
phone = 11 ∷ []

abbrev one_key : Keystore
one_key = record {
  slots =
      λ i. if i == 0 then record { in_use = true; pubkey = phone; label = 65 ∷ [] } else blank_slot;
}

abbrev nonce : List ℕ
nonce = replicate 32 5

abbrev signed : List ℕ
signed = 11 ∷ replicate 63 1

-- A device that has a name of one byte, which is all that its codec knows.
unfoldable named : List ℕ → DeviceConfig
named bytes = record config_default { device_name = bytes }

abbrev codec : Json
codec = record { print = λ cfg. some cfg.device_name; parse = λ bytes. loaded (named bytes) }

abbrev world : World ℕ
world = record {
  nacl = toy;
  floats = whole;
  json = codec;
  random = λ n. some (replicate n 5);
  readings = record { channel_mv = none; vbat_mv = none };
}

abbrev hooks : Hooks
hooks = record {
  fill_status = none;
  has_persist_config = true;
  has_persist_keystore = true;
  has_persist_lock = true;
  has_persist_diag_calib = true;
  has_on_session_authed = true;
  has_log_event = true;
  uptime_ms = 70000;
  has_on_device_name_changed = true;
}

app : App Flash ℕ
app = record {
  output = bike;
  config = named (77 ∷ []);
  keystore = one_key;
  lock = none;
  diag = none;
  ota = none;
  event_log = some short_log;
  input = some (Queue.init Queue.config_default);
  hooks = hooks;
  calls = [];
}

unauth_IsOut : is_authed init.state ≡ false
unfolding init
unauth_IsOut = refl

-- A stranger tries to turn the ignition on.
handle-IsGated_example : IsGated init app (handle world init app command_line (0x01 ∷ 0 ∷ 1 ∷ []))
handle-IsGated_example = handle-IsGated world init app unauth_IsOut command_line (0x01 ∷ 0 ∷ 1 ∷ [])

abbrev asked : Session
asked = record init { state = challenged; nonce = nonce }

abbrev greeting : List (Message ℕ)
greeting =
    record { world = world; line = auth_line; payload = 0x01 ∷ [] }
    ∷ record { world = world; line = auth_line; payload = 0x02 ∷ signed }
    ∷ []

gets_in : is_authed (run greeting init app).0.state ≡ true
unfolding run handle handle_auth auth_begin auth_response find_verifying find_from app verify
    same_bytes
gets_in = refl

run-authenticated_example :
    (earlier : List (Message ℕ)) × (m : Message ℕ) × (later : List (Message ℕ)) × (greeting
      ≡ earlier ++ (m ∷ later))
    × Authenticates earlier m init app
    × Issued earlier init app
run-authenticated_example = run-authenticated greeting app gets_in

send_chunks-available_example :
    (chunks : List (ℕ × List Event)) × (send_chunks short_log
        (suc (total16 short_log 0 / 10))
        (total16 short_log 0)
        0
        0
      ≡ some chunks)
    × (joined chunks ≡ available (first ∷ []) 0)
    × Indexed 0 chunks
send_chunks-available_example =
    send_chunks-available (first ∷ []) short_log short_log-Holds 0 (omega arith) (omega arith)

abbrev pieces : List (List ℕ)
pieces = (66 ∷ 77 ∷ []) ∷ (87 ∷ []) ∷ []

upload-parses_example :
    let staged = upload 0 pieces (begin 3 init app) app in
    write_commit world staged app
    ≡ commit (record staged { cfg_write_active = false }) app (world.json.parse (66 ∷ 77 ∷ 87 ∷ []))
upload-parses_example = upload-parses world pieces init app (omega arith) (omega arith)

commit-with_gap_example :
    let staged = (write_chunk (begin 3 init app) app (chunk_body 2 (9 ∷ []))).session in
    write_commit world staged app
    ≡ commit
        (record staged { cfg_write_active = false })
        app
        (world.json.parse (bytes_from 2 0 init.cfg_write_buf ++ 9 ∷ []))
commit-with_gap_example = commit-with_gap world 2 9 init app (omega arith)

incoming : DeviceConfig
incoming = record (named (66 ∷ [])) { outputs = bike_config }

bike_is_valid : any_flag (config_validate bike_config) ≡ false
unfolding config_validate count_role pair_is_bad pair_is_ambiguous for_range any_from
bike_is_valid = refl

accepts : (commit init app (loaded incoming)).frames ≡ write_result Result.ok
unfolding commit incoming
accepts = rw bike_is_valid refl

commit-IsApplied_example : IsApplied app (commit init app (loaded incoming)).app
commit-IsApplied_example = commit-IsApplied init app incoming accepts

app_IsKeeping : (log : Log Flash) → app.event_log ≡ some log → IsKeeping log.hal
unfolding app
app_IsKeeping log e =
    subst (λ (l : Log Flash). IsKeeping l.hal) (ap (λ o. elim o [ none ↦ log | some l ↦ l ]) e)
      flash_hal-IsKeeping

transfer-IsUnowned_example : IsUnowned app (transfer init app).app
transfer-IsUnowned_example = transfer-IsUnowned init app app_IsKeeping
