-- ===== src/Blob/Tests.antt =====
-- A blob of a number.
use moto_ctrl.Base.{ℕ, ◌≡◌, refl, List, [], ◌∷◌, arith}
use moto_ctrl.Blob.{ok, corrupt, future_version, Format, IsSound, serialize, deserialize}
use moto_ctrl.Blob.Damage.{deserialize_truncated}

abbrev first : List ℕ → ℕ
first [] = 0
first (b ∷ bytes) = b

abbrev small : Format ℕ
small = record {
  magic = 0x314c434d;
  version = 1;
  size = 2;
  image = λ n. n ∷ 0 ∷ [];
  read_image = first;
}

small-IsSound : IsSound small 7
small-IsSound = record {
  back = refl;
  sized = omega arith;
  magic_fits = omega arith;
  version_fits = omega arith;
}

writes : serialize small 7 8 ≡ ok (77 ∷ 67 ∷ 76 ∷ 49 ∷ 1 ∷ 0 ∷ 7 ∷ 0 ∷ [])
unfolding serialize
writes = refl

newer : deserialize small (77 ∷ 67 ∷ 76 ∷ 49 ∷ 2 ∷ 0 ∷ 7 ∷ 0 ∷ []) ≡ future_version
unfolding deserialize
newer = refl

deserialize_truncated_example : deserialize small (77 ∷ 67 ∷ 76 ∷ 49 ∷ 1 ∷ 0 ∷ 7 ∷ []) ≡ corrupt
deserialize_truncated_example = deserialize_truncated small 7 small-IsSound 7 (omega arith)
