-- ===== src/Nvs/Keeping.antt =====
-- What was saved is loaded again, and a load that fails gives the defaults.
use moto_ctrl.Base.{ℕ, ◌+◌, ◌≤◌, ◌≡◌, ◌≢◌, false, arith}
use moto_ctrl.Blob.{Format, IsSound}
use moto_ctrl.Blob.Damage.{serialize-blob, deserialize-blob, length-blob}
use moto_ctrl.Nvs.{esp_ok, Nvs, load, save}

module _ {A : Type 0} (format : Format A) (fallback : A) (buf_len : ℕ) where
  -- A load that reports anything but success hands out the defaults, whatever failed: the storage, the
  -- memory, or a blob that is too long, corrupt or of a later firmware.
  pub load_failed :
      (nvs : Nvs)
      → (load format fallback buf_len nvs).0 ≢ esp_ok
      → (load format fallback buf_len nvs).1 ≡ fallback
  unfolding load
  load_failed nvs bad = ground (arith, bad)

  -- A value that was saved is what the next load hands out, where the reads do not fail and the buffer
  -- is large enough for the blob.
  pub load-save :
      (a : A)
      → IsSound format a
      → 6 + format.size ≤ buf_len
      → (nvs : Nvs) → nvs.size_fails ≡ false
      → nvs.read_fails ≡ false
      → (save format fallback buf_len a nvs).0 ≡ esp_ok
      → load format fallback buf_len (save format fallback buf_len a nvs).1 ≡ (esp_ok, a)
  unfolding load save
  load-save a sound room nvs size_ok read_ok saved = ground (
    arith,
    serialize-blob format a sound buf_len room,
    deserialize-blob format a sound,
    length-blob format a sound,
    saved,
  )
