-- ===== src/Lib.antt =====
-- The moto-ctrl firmware: its core in firmware/components/core, with the output engine, the
-- immobilizer lock that commands it, the input engine, the diagnostics, the firmware update with the
-- hash it rests on, the event log, the keystore, the power policy, the status frame and the debounce
-- of the writes to flash; the session, through which a phone reaches all of these; and of the target
-- in firmware/main the task that runs them, the storage of the blobs and the boot of the lock.
--
-- Parts and files:
-- * Output models mc_output.c with its types from include/mc_output.h. Output.Types has the
--   structures; Drive what a channel is driven to (compute_driven_on, apply_hal_state); Parts the
--   searches and the starter guard; Command the command to a channel (mc_output_set, by its parts in
--   the order of the source) and the step of an alternating pair; Hazards the hazard control; Clock
--   the tick and the setters; Settings the default configuration and its validation. The calls
--   through the HAL are a log in the engine, the newest first. Output.Trace has the step function
--   over the calls of mc_output.h; the configuration that a session commits goes into the engine
--   directly (Session.Config).
-- * Lock models mc_lock.c beside the engine that it commands, which each function returns with the
--   lock. Lock.Moves has the entries into the states, Clock the tick and the two commands, Cheatcode
--   the code, Settings the configuration, the boot and the transfer of ownership. Lock.Machine has
--   the step function over the calls of both headers; the key and the phone reach the lock through
--   its inputs and commands only, and the lock alone inhibits the outputs.
-- * Input models mc_input.c. Input.Types has the structures; Queue the event queue and the settings;
--   Matcher the sequences and chords, a function for one round of each loop; Poll mc_input_poll, by
--   the parts of its loop body, and what the platform asks of the engine. Fifo is the queue as a
--   list; Debounce, Marks, Chords and Held what many polls do; Steps and Bounds the indices; Quiet polls that
--   find nothing to do.
-- * Diag models mc_diag.c: Types the conversions and the structures, Settings the configuration, the
--   calibration and mc_diag_learn, Tick mc_diag_tick by its parts. Floating point is a parameter, the
--   record Floats, of which nothing is assumed. The tick returns the output engine with its mirrors
--   set.
-- * Session models mc_session.c over all of these. Session.Types has mc_app_t and mc_session_t; Auth,
--   Commands, Lock, Diag, Events, Config and Update have the cases of the handlers of the five
--   channels, and Dispatch handle_command and mc_session_handle. A handler takes a session, an app
--   and the payload, and returns both with the frames it sent; what comes from outside in that call
--   (random bytes, readings, the JSON codec) is the record World. The hooks that the platform gives
--   are a log of their calls, and the one that logs an event appends to the event log
--   (log_event_cb of firmware/main/main.c). Session.History runs a connection from its start.
-- * Config models mc_config.c; its codec (mc_config_json.c) is the record Json.
-- * Blob has the form of the versioned blobs of mc_lock.c, mc_keystore.c and mc_diag.c, and Nvs their
--   storage (firmware/main/nvs_lock_hal.c, nvs_keystore_hal.c, nvs_calib_hal.c); Nvs.Boot is the part
--   of app_main (firmware/main/main.c) that sets up the lock.
-- * Board models the task that runs the core, in firmware/main/main.c: Bindings what a button does
--   (dispatch_action, momentary_tick and their parts), Turn one turn of app_task. Drives and Refine
--   show a turn as a run of Lock.Machine, Queue that its event loop ends.
-- * Crypto models mc_crypto.c. The vendored TweetNaCl is a parameter, the record Nacl; that it
--   hashes by blocks (IsBlockwise) is a hypothesis where hashes of cut messages are
--   compared. A salt comes from mc_crypto_random, an argument of set_cheatcode.
-- * Ota models mc_ota.c. What a flash function returns is a parameter that may hang on all the calls
--   before; the calls are a log in the state. Ota.Image reads the image off that log.
-- * EventLog models mc_event_log.c over a storage with a state of its own. That a storage keeps what
--   it is given (IsKeeping) is a hypothesis where a record is to be read back.
-- * Keystore models mc_keystore.c: the slots, enrolment and revocation, and the search for a key that
--   verifies a signature.
-- * Power models mc_power.c, Persist mc_persist.c and Status mc_status.c with its 16-byte frame.
-- * Base has the shared helpers: Boolean tests, 32-bit words with their wrap written out, arrays as
--   functions, loops over an index range as recursion on the count of rounds, and byte strings.
--
-- Loops: the loops over channels, inputs and combinations run the rounds of the source. The loop of
-- mc_event_log_read is on fuel, since its counter wraps; any fuel above the number of appended records
-- is enough for a reader whose number to start from is below 2 ^ 32 - 1, and one more for that number;
-- the theorems on it are stated for every such fuel. The loop that sends the event
-- log has fuel for one chunk of ten records more than the announced total fills, and runs out of none
-- of it by a theorem below. The loop that sends a configuration has fuel for one chunk more than the
-- text has bytes, and each round takes at least one byte or is the last. The loop over the events of
-- a turn has fuel for the sixteen that the queue holds, which is enough by a theorem below. The loops of
-- mc_output_config_validate that only raise a flag are whether some round raises it.
--
-- Bounds: uint32_t sums and differences are taken mod 2 ^ 32, the count of wrong codes mod 2 ^ 16, and
-- the length of a hashed message mod 2 ^ 64; the offsets of a staged configuration mod 2 ^ 16. A
-- channel's index is below 256 in the source and any number here; the guard of the source is kept.
-- int8_t indices are integers.
--
-- Not modelled: the configuration as JSON over the vendored cJSON; the images of the C structures in
-- the blobs, which are parameters; a host that attaches no output engine, no configuration or no
-- keystore to the session; what the platform does in the hooks of the session, as the
-- writes and the unlock when a phone is authenticated, but for the append of log_event_cb; a CSPRNG
-- that fails with some of the nonce written, as the one of a host build may; of app_task the write-back of
-- the configuration, the debounced writes, the factory reset, the watchdog and the pushes to an app
-- that learns the inputs; the interleaving of the task with the BLE host's; the drivers in
-- firmware/main; and the simulator in firmware/sim.
pub mod Base
pub mod Blob
pub mod Board
pub mod Config
pub mod Crypto
pub mod Diag
pub mod EventLog
pub mod Input
pub mod Keystore
pub mod Lock
pub mod Nvs
pub mod Ota
pub mod Output
pub mod Persist
pub mod Power
pub mod Session
pub mod Status
