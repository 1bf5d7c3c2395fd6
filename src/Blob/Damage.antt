-- ===== src/Blob/Damage.antt =====
-- A blob reads back, and one that is cut short is refused.
use moto_ctrl.Base.{ℕ, zero, suc, ◌+◌, ◌<◌, ◌≤◌, ◌≡◌, refl, List, arith, length, take, length-take}
use moto_ctrl.Status.Frame.{put_u16le, put_u32le}
use moto_ctrl.Status.Roundtrip.{get-put_u16le, get-put_u32le}
use moto_ctrl.Blob.{ok, corrupt, Format, IsSound, serialize, deserialize}

module _ {A : Type 0} (format : Format A) (a : A) (sound : IsSound format a) where
  -- The bytes that a successful write leaves.
  abbrev pub blob : List ℕ
  blob = put_u32le format.magic (put_u16le format.version (format.image a))

  pub serialize-blob :
      (buf_len : ℕ) → 6 + format.size ≤ buf_len → serialize format a buf_len ≡ ok blob
  unfolding serialize
  serialize-blob buf_len room = ground arith

  pub deserialize-blob : deserialize format blob ≡ ok a
  unfolding deserialize
  deserialize-blob = ground (
    arith,
    get-put_u32le format.magic sound.magic_fits,
    get-put_u16le format.version sound.version_fits,
    sound.back,
    sound.sized,
  )

  pub length-blob : length blob ≡ 6 + format.size
  length-blob = omega (arith, sound.sized)

  -- A blob that was cut short anywhere is refused as corrupt.
  pub deserialize_truncated :
      (n : ℕ) → n < 6 + format.size → deserialize format (take n blob) ≡ corrupt
  unfolding deserialize
  deserialize_truncated zero short = refl
  deserialize_truncated (suc zero) short = refl
  deserialize_truncated (suc (suc zero)) short = refl
  deserialize_truncated (suc (suc (suc zero))) short = refl
  deserialize_truncated (suc (suc (suc (suc zero)))) short = refl
  deserialize_truncated (suc (suc (suc (suc (suc zero))))) short = refl
  deserialize_truncated (suc (suc (suc (suc (suc (suc n)))))) short = ground (
    arith,
    get-put_u32le format.magic sound.magic_fits,
    get-put_u16le format.version sound.version_fits,
    length-take n (format.image a),
    sound.sized,
  )
