-- ===== src/Nvs/Tests.antt =====
-- Blobs in a flash that works, and one that does not.
use moto_ctrl.Base.{
  ℕ, ◌≡◌, refl, Bool, true, false, not, ◌&&◌, none, List, [], ◌∷◌, ◌==◌, if◌then◌else◌, pos,
  replicate, arith,
}
use moto_ctrl.Output.Bike.{bike}
use moto_ctrl.Lock.Types.{LockConfig, Lock, locked}
use moto_ctrl.Lock.Moves.{is_locked, ignition_is_live}
use moto_ctrl.Blob.{Format, IsSound, serialize}
use moto_ctrl.Nvs.{esp_ok, Nvs, LockPersisted, lock_format, lock_persisted, lock_load, lock_save}
use moto_ctrl.Nvs.Boot.{boot_lock, boot_damaged, boot-save}

abbrev enabled : LockConfig
enabled = record {
  immobilizer_enabled = true;
  methods_mask = 1;
  ignition_switch_input = pos 0;
  auto_lock_grace_ms = 60000;
  cheatcode_window_ms = 5000;
  cheatcode_set = true;
  cheatcode_len = 4;
  cheatcode_salt = replicate 16 7;
  cheatcode_hash = replicate 64 9;
}

abbrev parked_lock : Lock
parked_lock = record {
  config = enabled;
  state = locked;
  locked_flag = true;
  parked_since_ms = 0;
  entry = [];
  entry_start_ms = 0;
  consecutive_wrong = 0;
  backoff_until_ms = 0;
  last_attempt_ms = 0;
  backoff_active = false;
  prev_ignition_switch_level = false;
  dirty = true;
}

-- An image that holds the two flags.
abbrev flags_of : List ℕ → Bool × Bool
flags_of (a ∷ b ∷ bytes) = (a == 1, b == 1)
flags_of _ = (false, false)

abbrev flags_image : Format LockPersisted
flags_image =
    lock_format 2
      (λ p. (if p.config.immobilizer_enabled then 1 else 0) ∷ (if p.locked_flag then 1 else 0) ∷ [])
      (λ bytes. record {
        config = record enabled { immobilizer_enabled = (flags_of bytes).0 };
        locked_flag = (flags_of bytes).1;
      })

abbrev working : Nvs
working = record {
  is_open = true;
  blob = none;
  size_fails = false;
  read_fails = false;
  set_fails = false;
  commit_fails = false;
  out_of_memory = false;
}

parked_lock-IsSound : IsSound flags_image (lock_persisted parked_lock)
unfolding lock_persisted
parked_lock-IsSound = record {
  back = refl;
  sized = omega arith;
  magic_fits = omega arith;
  version_fits = omega arith;
}

saves : (lock_save flags_image parked_lock working).0 ≡ esp_ok
unfolding lock_save serialize
saves = refl

boot-save_example :
    is_locked (boot_lock flags_image (lock_save flags_image parked_lock working).1 bike).1.state
    ≡ enabled.immobilizer_enabled
      && parked_lock.locked_flag
      && not bike.engine_running
      && not (ignition_is_live bike)
boot-save_example =
    boot-save flags_image (omega arith) parked_lock parked_lock-IsSound working bike refl refl saves

boot_damaged_example :
    (is_locked (boot_lock flags_image (record working { is_open = false }) bike).1.state ≡ false)
    × ((boot_lock flags_image (record working { is_open = false }) bike).2.immobilized ≡ false)
boot_damaged_example =
    boot_damaged flags_image (record working { is_open = false }) bike
      (unfold lock_load in ground arith)
