-- ===== src/Blob.antt =====
-- The versioned blobs of mc_lock.c, mc_keystore.c and mc_diag.c (all in firmware/components/core/):
-- a magic number, a schema version and the image of a C struct, which the three write and read alike.
-- The image of a struct is the compiler's; it is a parameter.
pub mod Damage
pub mod Tests
use moto_ctrl.Base.{ℕ, ◌+◌, ◌≡◌, ◌<◌, Bool, not, List, [], ◌∷◌, ltb, ◌==◌, if◌then◌else◌, length}
use moto_ctrl.Status.Frame.{put_u16le, put_u32le, get_u16le, get_u32le}

-- What a read or a write reports: `mc_lock_store_result_t`, `mc_keystore_result_t` and
-- `mc_diag_store_result_t`.
pub data Stored {ℓ} (A : Type ℓ) : Type ℓ where
  ok : A → Stored A
  buffer_too_small corrupt future_version : Stored A

-- The magic and the version of a blob, `sizeof` its struct and the image of the struct.
pub record Format (A : Type 0) : Type 0 where
  pub magic : ℕ
  pub version : ℕ
  pub size : ℕ
  pub image : A → List ℕ
  pub read_image : List ℕ → A

-- A value whose image has the struct's size and reads back as it, and header fields that fit.
pub record IsSound {A : Type 0} (format : Format A) (a : A) : Type 0 where
  pub back : format.read_image (format.image a) ≡ a
  pub sized : length (format.image a) ≡ format.size
  pub magic_fits : format.magic < 4294967296
  pub version_fits : format.version < 65536

module _ {A : Type 0} (format : Format A) where
  -- `mc_lock_serialize`, `mc_keystore_serialize`, `mc_diag_calib_serialize`
  unfoldable pub serialize : A → ℕ → Stored (List ℕ)
  serialize a buf_len =
      if ltb buf_len (6 + format.size)
      then buffer_too_small
      else ok (put_u32le format.magic (put_u16le format.version (format.image a)))

  -- `mc_lock_deserialize`, `mc_keystore_deserialize`, `mc_diag_calib_deserialize`
  unfoldable pub deserialize : List ℕ → Stored A
  deserialize (m0 ∷ m1 ∷ m2 ∷ m3 ∷ v0 ∷ v1 ∷ rest) =
      if not (get_u32le m0 m1 m2 m3 == format.magic)
      then corrupt
      else if ltb format.version (get_u16le v0 v1)
      then future_version
      else if not (6 + length rest == 6 + format.size)
      then corrupt
      else ok (format.read_image rest)
  deserialize _ = corrupt
