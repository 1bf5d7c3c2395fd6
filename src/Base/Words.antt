-- ===== src/Base/Words.antt =====
-- Machine words (firmware/components/core/include/mc_types.h): a `uint32_t` is a number below
-- 2 ^ 32, and what wraps is written out. A signed index such as `int8_t` is a ℤ.
use Prim.Native.Nat.{ℕ, ◌+◌, ◌-◌, ◌%◌}
use mathlib.Core.Bool.{Bool}
use moto_ctrl.Base.Tests.{ltb, leb}

abbrev pub u32_mod : ℕ
u32_mod = 4294967296

-- `a + b` and `a - b` on uint32_t.
abbrev pub add32 : ℕ → ℕ → ℕ
add32 a b = (a + b) % u32_mod

abbrev pub sub32 : ℕ → ℕ → ℕ
sub32 a b = (a + u32_mod - b) % u32_mod

-- `(int32_t)(a - b) >= 0`
abbrev pub not_before32 : ℕ → ℕ → Bool
not_before32 a b = ltb (sub32 a b) 2147483648

-- `mc_elapsed_at_least`
abbrev pub elapsed_at_least : ℕ → ℕ → ℕ → Bool
elapsed_at_least now since delta = leb delta (sub32 now since)

-- `negsuc n` is -(n + 1).
pub data ℤ : Type 0 where
  pos : ℕ → ℤ
  negsuc : ℕ → ℤ

abbrev pub minus_one : ℤ
minus_one = negsuc 0
