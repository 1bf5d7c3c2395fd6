-- ===== src/Lock/Tests.antt =====
-- The theorems on the lock, at work on a motorcycle with a toy hash.
use moto_ctrl.Base.{
  ℕ, pos, ◌%◌, ◌≡◌, refl, true, false, none, not, List, [], ◌∷◌, arith, length, take, drop,
  replicate, same_bytes, find_from,
}
use moto_ctrl.Crypto.{
  Nacl, store_be, store_u64_be, hash_init, keep_rest, hash_blocks, hash_update, padded, hash_final,
  hash_sha512,
}
use moto_ctrl.Output.Types.{Engine, remote}
use moto_ctrl.Output.Parts.{find_ignition_channel}
use moto_ctrl.Output.Drive.{get_state}
use moto_ctrl.Output.Trace.{command}
use moto_ctrl.Output.Bike.{bike}
use moto_ctrl.Lock.Types.{unlocked, locked, LockConfig, Lock, Inputs, in_backoff}
use moto_ctrl.Lock.Moves.{is_locked, ignition_is_live, enter_locked}
use moto_ctrl.Lock.Settings.{init}
use moto_ctrl.Lock.Cheatcode.{
  set_cheatcode, clear_cheatcode, code_hash, test_cheatcode, buffer_press, cheatcode_press,
}
use moto_ctrl.Lock.Clock.{run_timers, advance, tick, request_lock}
use moto_ctrl.Lock.Sweep.{OneIgnition}
use moto_ctrl.Lock.Machine.{
  Event, set_code, clear_code, time, lock_now, unlock_now, press, drive, step, run,
}
use moto_ctrl.Lock.Invariant.{Sound}
use moto_ctrl.Lock.Soundness.{run-Sound}
use moto_ctrl.Lock.Release.{releases, is_held, step-releases, run-holds}
use moto_ctrl.Lock.Locking.{IsDark, step-locks-IsDark}
use moto_ctrl.Lock.Typing.{is_prompt, typed, run-unlocks}
use moto_ctrl.Lock.Lockout.{all_early, run-locked_out}

-- A hash that keeps the bytes behind most of the salt.
abbrev toy : Nacl
toy = record {
  hashblocks = λ h bytes. (take 10 (drop 14 bytes), length bytes % 128);
  sign_open = λ msg key. true;
}

abbrev salt : List ℕ
salt = replicate 16 7

abbrev code : List ℕ
code = 1 ∷ 2 ∷ 3 ∷ 1 ∷ []

-- What the toy hash gives for the code.
abbrev code_digest : List ℕ
code_digest = 7 ∷ 7 ∷ 4 ∷ 1 ∷ 2 ∷ 3 ∷ 1 ∷ 0x80 ∷ 0 ∷ 0 ∷ []

abbrev keyed : LockConfig
keyed = record {
  immobilizer_enabled = true;
  methods_mask = 3;
  ignition_switch_input = pos 0;
  auto_lock_grace_ms = 60000;
  cheatcode_window_ms = 5000;
  cheatcode_set = true;
  cheatcode_len = 4;
  cheatcode_salt = salt;
  cheatcode_hash = code_digest;
}

abbrev locked_up : Lock
locked_up = record {
  config = keyed;
  state = locked;
  locked_flag = true;
  parked_since_ms = 0;
  entry = [];
  entry_start_ms = 0;
  consecutive_wrong = 0;
  backoff_until_ms = 0;
  last_attempt_ms = 0;
  backoff_active = false;
  prev_ignition_switch_level = false;
  dirty = false;
}

abbrev held : Engine
held = record bike { immobilized = true }

abbrev no_key : Inputs
no_key = record { ignition_switch_level = false; engine_running = false }

locked_up-Sound : Sound locked_up held
locked_up-Sound = record {
  sync = refl;
  flag = refl;
  enabled = refl;
  calm = λ e. absurd (ground arith);
  short = omega arith;
}

bike-OneIgnition : OneIgnition bike
bike-OneIgnition = record { at = λ i j lt lt' is is'. ground arith }

step-releases_example :
    is_locked (step toy unlock_now (locked_up, held)).0.state
    ≡ not (releases toy unlock_now (locked_up, held))
step-releases_example = step-releases toy locked_up held locked_up-Sound refl unlock_now

run-Sound_example :
    let (l', s') =
      run toy
        (time 2000 no_key ∷ lock_now ∷ drive (command 4 true remote) ∷ unlock_now ∷ [])
        (init keyed true bike) in
    Sound l' s'
run-Sound_example =
    run-Sound toy keyed true bike
      (time 2000 no_key ∷ lock_now ∷ drive (command 4 true remote) ∷ unlock_now ∷ [])
      (record {}, (record {}, (record {}, (record {}, record {}))))

run-holds_example :
    let (l', s') = run toy (time 2000 no_key ∷ press 2100 1 ∷ lock_now ∷ []) (locked_up, held) in
    (is_locked l'.state ≡ true) × (s'.immobilized ≡ true)
unfolding is_held step releases tick run_timers buffer_press test_cheatcode advance
run-holds_example =
    run-holds toy (time 2000 no_key ∷ press 2100 1 ∷ lock_now ∷ []) locked_up held
      (record {}, (record {}, (record {}, record {}))) locked_up-Sound refl refl

abbrev at_rest : Lock
at_rest = record locked_up { state = unlocked; locked_flag = false }

step-locks-IsDark_example : IsDark (step toy lock_now (at_rest, bike)).1
unfolding step request_lock ignition_is_live find_ignition_channel find_from get_state enter_locked
step-locks-IsDark_example = step-locks-IsDark toy lock_now at_rest bike bike-OneIgnition refl refl

run-unlocks_example :
    let (l', s') =
      run toy (press 1000 1 ∷ typed ((1400, 2) ∷ (1800, 3) ∷ (2200, 1) ∷ [])) (locked_up, held) in
    (l'.state ≡ unlocked) × (s'.immobilized ≡ false)
unfolding test_cheatcode code_hash hash_sha512 hash_init hash_update hash_blocks keep_rest
    hash_final padded store_u64_be store_be same_bytes is_prompt
run-unlocks_example =
    run-unlocks toy locked_up held 1000 1 ((1400, 2) ∷ (1800, 3) ∷ (2200, 1) ∷ []) refl refl refl
      (omega arith) refl (omega arith) refl

-- Five wrong codes, and three buttons of the next.
abbrev guessing : Lock
guessing = record locked_up { consecutive_wrong = 5; entry = 1 ∷ 1 ∷ 1 ∷ []; entry_start_ms = 1000 }

abbrev waiting : Lock
waiting = record locked_up {
  consecutive_wrong = 6;
  backoff_active = true;
  backoff_until_ms = 16500;
}

waiting-Sound : Sound waiting held
waiting-Sound = record {
  sync = refl;
  flag = refl;
  enabled = refl;
  calm = λ e. absurd (ground arith);
  short = omega arith;
}

abbrev guesses : List Event
guesses =
    press 2000 1
    ∷ clear_code
    ∷ set_code (1 ∷ []) none
    ∷ time 9000 no_key
    ∷ lock_now
    ∷ press 9100 2
    ∷ []

guesses_early : all_early toy guesses (waiting, held) ≡ true
unfolding all_early step cheatcode_press clear_cheatcode set_cheatcode request_lock tick
guesses_early = refl

run-locked_out_example :
    let (l', s') = run toy guesses (waiting, held) in
    (l'.backoff_active ≡ true)
    × (l'.consecutive_wrong ≡ 6)
    × (is_locked l'.state ≡ true)
    × (cheatcode_press toy l' s' 9200 3 ≡ (in_backoff, l', s'))
run-locked_out_example =
    run-locked_out toy guesses waiting held 9200 3 waiting-Sound refl refl refl guesses_early
