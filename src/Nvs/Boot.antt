-- ===== src/Nvs/Boot.antt =====
-- How `app_main` (firmware/main/main.c) brings up the lock from its blob.
use moto_ctrl.Base.{
  ◌+◌, ◌≤◌, ◌≡◌, ◌≢◌, refl, ap, ◌∙◌, Bool, true, false, not, ◌&&◌, arith, if◌then◌else◌,
}
use moto_ctrl.Output.Types.{Engine}
use moto_ctrl.Output.Clock.{set_immobilized}
use moto_ctrl.Lock.Types.{LockConfig, Lock}
use moto_ctrl.Lock.Moves.{is_locked, ignition_is_live}
use moto_ctrl.Lock.Settings.{init, config_default}
use moto_ctrl.Lock.Locking.{init-locks}
use moto_ctrl.Blob.{Format, IsSound}
use moto_ctrl.Nvs.{
  EspErr, esp_ok, esp_fail, invalid_size, no_mem, invalid_state, nvs_failure, Nvs, LockPersisted,
  lock_fallback, lock_persisted, lock_load, lock_save,
}
use moto_ctrl.Nvs.Keeping.{load-save}

abbrev pub is_ok : EspErr → Bool
is_ok esp_ok = true
is_ok _ = false

-- What the boot makes of the load's result.
abbrev settings : EspErr × LockPersisted → LockPersisted
settings (err, p) = if is_ok err then p else lock_fallback

-- The lock in `app_main`: load, `mc_lock_init`, and save at once what the boot changed.
unfoldable pub boot_lock : Format LockPersisted → Nvs → Engine → Nvs × Lock × Engine
unfolding lock_fallback
boot_lock format nvs output =
    let p = settings (lock_load format nvs) in
    let (lock, output') = init p.config p.locked_flag output in
    if lock.dirty
    then (let (err, nvs') = lock_save format lock nvs in
        (nvs', (if is_ok err then record lock { dirty = false } else lock), output'))
    else (nvs, lock, output')

settings-failed : (r : EspErr × LockPersisted) → r.0 ≢ esp_ok → settings r ≡ lock_fallback
settings-failed (esp_ok, p) bad = absurd (bad refl)
settings-failed (esp_fail, p) bad = refl
settings-failed (invalid_size, p) bad = refl
settings-failed (no_mem, p) bad = refl
settings-failed (invalid_state, p) bad = refl
settings-failed (nvs_failure, p) bad = refl

init_disabled :
    (config : LockConfig) (flag : Bool) (s : Engine)
    → config.immobilizer_enabled ≡ false
    → (is_locked (init config flag s).0.state ≡ false)
      × ((init config flag s).1.immobilized ≡ false)
unfolding init set_immobilized
init_disabled config flag s off = (ground arith, ground arith)

fallback-disabled : lock_fallback.config.immobilizer_enabled ≡ false
unfolding lock_fallback config_default
fallback-disabled = refl

module _ (format : Format LockPersisted) (nvs : Nvs) (output : Engine) where
  abbrev started : LockPersisted → Lock × Engine
  started p = init p.config p.locked_flag output

  -- The save of the boot touches neither the lock's state nor the outputs.
  boot-init :
      ((boot_lock format nvs output).1.state ≡ (started (settings (lock_load format nvs))).0.state)
      × ((boot_lock format nvs output).2 ≡ (started (settings (lock_load format nvs))).1)
  unfolding boot_lock
  boot-init = (ground arith, ground arith)

  -- A boot that cannot load the lock leaves the bike unlocked and no output inhibited.
  pub boot_damaged :
      (lock_load format nvs).0 ≢ esp_ok
      → (is_locked (boot_lock format nvs output).1.state ≡ false)
        × ((boot_lock format nvs output).2.immobilized ≡ false)
  boot_damaged bad =
      let off =
        init_disabled lock_fallback.config lock_fallback.locked_flag output fallback-disabled in
      let same = ap started (settings-failed (lock_load format nvs) bad) in
      (
        ap is_locked (boot-init.0 ∙ ap (λ (x : Lock × Engine). x.0.state) same) ∙ off.0,
        ap (λ (x : Engine). x.immobilized) (boot-init.1 ∙ ap (λ (x : Lock × Engine). x.1) same)
            ∙ off.1,
      )

module _ (format : Format LockPersisted) (room : 6 + format.size ≤ 512) (lock : Lock)
    (sound : IsSound format (lock_persisted lock)) where
  lock_load-save :
      (nvs : Nvs)
      → nvs.size_fails ≡ false
      → nvs.read_fails ≡ false
      → (lock_save format lock nvs).0 ≡ esp_ok
      → lock_load format (lock_save format lock nvs).1 ≡ (esp_ok, lock_persisted lock)
  unfolding lock_load lock_save
  lock_load-save nvs size_ok read_ok saved =
      load-save format lock_fallback 512 (lock_persisted lock) sound room nvs size_ok read_ok saved

  -- After a power cut, the boot locks the bike exactly if the lock was enabled and engaged when it was
  -- last saved and nothing says that the bike is being ridden, where the storage can be read.
  pub boot-save :
      (nvs : Nvs) (output : Engine)
      → nvs.size_fails ≡ false
      → nvs.read_fails ≡ false
      → (lock_save format lock nvs).0 ≡ esp_ok
      → is_locked (boot_lock format (lock_save format lock nvs).1 output).1.state
        ≡ lock.config.immobilizer_enabled
          && lock.locked_flag
          && not output.engine_running
          && not (ignition_is_live output)
  unfolding lock_persisted
  boot-save nvs output size_ok read_ok saved =
      ap is_locked (
        (boot-init format (lock_save format lock nvs).1 output).0
        ∙ ap
            (λ (r : EspErr × LockPersisted).
              (init (settings r).config (settings r).locked_flag output).0.state)
            (lock_load-save nvs size_ok read_ok saved))
      ∙ init-locks lock.config lock.locked_flag output
