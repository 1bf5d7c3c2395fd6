-- ===== src/Status/Roundtrip.antt =====
-- The status frame carries the status.
use moto_ctrl.Base.{ℕ, ◌+◌, ◌/◌, ◌%◌, ◌<◌, ◌≡◌, ℤ, pos, negsuc, Bool, true, arith, ltb}
use moto_ctrl.Status.Frame.{Status, get_u16le, get_u32le, bit}

-- The fields hold what their C types can: 16 and 32 bits, and a signed byte.
abbrev pub fits_int8 : ℤ → Bool
fits_int8 (pos n) = ltb n 128
fits_int8 (negsuc n) = ltb n 128

pub record IsInRange (st : Status) : Type 0 where
  pub uptime : st.uptime_ms < 4294967296
  pub battery : st.battery_mv < 65536
  pub states : st.output_state_mask < 65536
  pub faults : st.output_fault_mask < 65536
  pub rssi : fits_int8 st.rssi_dbm ≡ true

pub get-put_u16le : (v : ℕ) → v < 65536 → get_u16le (v % 256) ((v / 256) % 256) ≡ v
get-put_u16le v h = omega arith

pub get-put_u32le :
    (v : ℕ)
    → v < 4294967296
    → get_u32le (v % 256) ((v / 256) % 256) ((v / 65536) % 256) ((v / 16777216) % 256) ≡ v
get-put_u32le v h = omega arith

abbrev flags : Bool → Bool → Bool → ℕ
flags a b c = bit a 1 + bit b 2 + bit c 4
