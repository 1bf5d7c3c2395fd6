-- ===== src/Nvs.antt =====
-- The blobs of the lock, the keystore and the calibration in flash (firmware/main/nvs_lock_hal.c,
-- nvs_keystore_hal.c and nvs_calib_hal.c). ESP-IDF's NVS is what its calls return and the blob that is
-- under the key.
pub mod Keeping
pub mod Boot
pub mod Tests
use moto_ctrl.Base.{
  ℕ, Bool, not, true, false, ◌&&◌, Option, none, some, List, ltb, if◌then◌else◌, length, ℤ, pos,
}
use moto_ctrl.Blob.{
  Stored, ok, buffer_too_small, corrupt, future_version, Format, serialize, deserialize,
}
use moto_ctrl.Output.Types.{Engine, Hal, Config}
use moto_ctrl.Lock.Types.{LockConfig, Lock}
use moto_ctrl.Lock.Settings
use moto_ctrl.Keystore.Slots
use moto_ctrl.Keystore.Slots.{Keystore}
use moto_ctrl.Diag.Types.{Floats, Calib}
use moto_ctrl.Diag.Settings.{calib_default}

-- The results that the source names; `nvs_failure` is what a call of NVS returned.
pub data EspErr : Type 0 where
  esp_ok esp_fail invalid_size no_mem invalid_state nvs_failure : EspErr

-- `s_open`, the blob, which calls of NVS fail, and whether `malloc` does. A blob that was set is the
-- blob, whether or not the commit succeeds.
pub record Nvs : Type 0 where
  pub is_open : Bool
  pub blob : Option (List ℕ)
  pub size_fails : Bool
  pub read_fails : Bool
  pub set_fails : Bool
  pub commit_fails : Bool
  pub out_of_memory : Bool

module _ {A : Type 0} (format : Format A) (fallback : A) (buf_len : ℕ) where
  -- What is done with the bytes that were read.
  abbrev decoded : Stored A → EspErr × A
  decoded (ok a) = (esp_ok, a)
  decoded buffer_too_small = (invalid_state, fallback)
  decoded corrupt = (invalid_state, fallback)
  decoded future_version = (invalid_state, fallback)

  -- `nvs_lock_load`, `nvs_keystore_load`, `nvs_calib_load`
  unfoldable pub load : Nvs → EspErr × A
  load nvs = if not nvs.is_open then (esp_fail, fallback) else elim nvs.blob [
    | none ↦ if nvs.size_fails then (nvs_failure, fallback) else (esp_ok, fallback)
    | some bytes ↦
        if nvs.size_fails
        then (nvs_failure, fallback)
        else if ltb buf_len (length bytes)
        then (invalid_size, fallback)
        else if nvs.out_of_memory
        then (no_mem, fallback)
        else if nvs.read_fails
        then (nvs_failure, fallback)
        else decoded (deserialize format bytes)
  ]

  abbrev written : Nvs → Stored (List ℕ) → EspErr × Nvs
  written nvs (ok bytes) =
      if nvs.set_fails
      then (nvs_failure, nvs)
      else ((if nvs.commit_fails then nvs_failure else esp_ok), record nvs { blob = some bytes })
  written nvs buffer_too_small = (invalid_size, nvs)
  written nvs corrupt = (invalid_size, nvs)
  written nvs future_version = (invalid_size, nvs)

  -- `nvs_lock_save`, `nvs_keystore_save`, `nvs_calib_save`
  unfoldable pub save : A → Nvs → EspErr × Nvs
  save a nvs =
      if not nvs.is_open
      then (esp_fail, nvs)
      else if nvs.out_of_memory
      then (no_mem, nvs)
      else written nvs (serialize format a buf_len)

-- `mc_lock_persisted_t`
pub record LockPersisted : Type 0 where
  pub config : LockConfig
  pub locked_flag : Bool

-- What `mc_lock_serialize` takes from the lock.
unfoldable pub lock_persisted : Lock → LockPersisted
lock_persisted lock = record { config = lock.config; locked_flag = lock.locked_flag }

-- The defaults with which `nvs_lock_load` starts.
unfoldable pub lock_fallback : LockPersisted
lock_fallback = record { config = Settings.config_default; locked_flag = false }

-- MC_LOCK_MAGIC, MC_KEYSTORE_MAGIC and MC_DIAG_CALIB_MAGIC, each with its schema version
abbrev pub lock_format :
    ℕ → (LockPersisted → List ℕ) → (List ℕ → LockPersisted) → Format LockPersisted
lock_format size image read_image = record {
  magic = 0x314c434d;
  version = 1;
  size = size;
  image = image;
  read_image = read_image;
}

abbrev pub keystore_format : ℕ → (Keystore → List ℕ) → (List ℕ → Keystore) → Format Keystore
keystore_format size image read_image = record {
  magic = 0x314b434d;
  version = 1;
  size = size;
  image = image;
  read_image = read_image;
}

module _ {F : Type 0} where
  abbrev pub calib_format : ℕ → (Calib F → List ℕ) → (List ℕ → Calib F) → Format (Calib F)
  calib_format size image read_image = record {
    magic = 0x3144434d;
    version = 1;
    size = size;
    image = image;
    read_image = read_image;
  }

  -- `nvs_calib_load` and `nvs_calib_save`, whose buffer is on the stack.
  unfoldable pub calib_load : Floats F → Format (Calib F) → Nvs → EspErr × Calib F
  unfolding load
  calib_load fl format nvs =
      load format (calib_default fl) 128 (record nvs { out_of_memory = false })

  unfoldable pub calib_save : Floats F → Format (Calib F) → Calib F → Nvs → EspErr × Nvs
  unfolding save
  calib_save fl format calib nvs =
      save format (calib_default fl) 128 calib (record nvs { out_of_memory = false })

-- `nvs_lock_load` and `nvs_lock_save`
unfoldable pub lock_load : Format LockPersisted → Nvs → EspErr × LockPersisted
unfolding load lock_fallback
lock_load format nvs = load format lock_fallback 512 nvs

unfoldable pub lock_save : Format LockPersisted → Lock → Nvs → EspErr × Nvs
unfolding save lock_fallback lock_persisted
lock_save format lock nvs = save format lock_fallback 512 (lock_persisted lock) nvs

-- `nvs_keystore_load` and `nvs_keystore_save`
unfoldable pub keystore_load : Format Keystore → Nvs → EspErr × Keystore
unfolding load
keystore_load format nvs = load format Slots.init 1024 nvs

unfoldable pub keystore_save : Format Keystore → Keystore → Nvs → EspErr × Nvs
unfolding save
keystore_save format ks nvs = save format Slots.init 1024 ks nvs
