-- ===== src/Status/Frame.antt =====
-- firmware/components/core/mc_status.c. A byte is a number below 256, an array of bytes a list.
use moto_ctrl.Base.{
  ℕ, ◌+◌, ◌-◌, ◌*◌, ◌/◌, ◌%◌, ℤ, pos, negsuc, Bool, false, Option, none, some, List, [], ◌∷◌, ltb,
  ◌==◌, if◌then◌else◌,
}

-- `mc_status_t`
pub record Status : Type 0 where
  pub fw_major : ℕ
  pub fw_minor : ℕ
  pub fw_patch : ℕ
  pub lock_state : ℕ
  pub uptime_ms : ℕ
  pub battery_mv : ℕ
  pub output_state_mask : ℕ
  pub output_fault_mask : ℕ
  pub rssi_dbm : ℤ
  pub cheatcode_backoff : Bool
  pub lv_cutoff_active : Bool
  pub hazard_active : Bool

-- `put_u16le` and `put_u32le`, before the bytes that follow
abbrev pub put_u16le : ℕ → List ℕ → List ℕ
put_u16le v rest = v % 256 ∷ (v / 256) % 256 ∷ rest

abbrev pub put_u32le : ℕ → List ℕ → List ℕ
put_u32le v rest = v % 256 ∷ (v / 256) % 256 ∷ (v / 65536) % 256 ∷ (v / 16777216) % 256 ∷ rest

-- `get_u16le` and `get_u32le`, of their bytes
abbrev pub get_u16le : ℕ → ℕ → ℕ
get_u16le b0 b1 = b0 + b1 * 256

abbrev pub get_u32le : ℕ → ℕ → ℕ → ℕ → ℕ
get_u32le b0 b1 b2 b3 = b0 + b1 * 256 + b2 * 65536 + b3 * 16777216

-- `(uint8_t)v` and `(int8_t)b`
abbrev pub byte_of : ℤ → ℕ
byte_of (pos n) = n % 256
byte_of (negsuc n) = 255 - n % 256

abbrev pub int8_of : ℕ → ℤ
int8_of b = if ltb b 128 then pos b else negsuc (255 - b)

abbrev pub bit : Bool → ℕ → ℕ
bit on weight = if on then weight else 0

-- `mc_status_init`; the version is MC_FW_VERSION_*.
unfoldable pub init : Status
init = record {
  fw_major = 0;
  fw_minor = 8;
  fw_patch = 4;
  lock_state = 0;
  uptime_ms = 0;
  battery_mv = 0;
  output_state_mask = 0;
  output_fault_mask = 0;
  rssi_dbm = pos 0;
  cheatcode_backoff = false;
  lv_cutoff_active = false;
  hazard_active = false;
}

-- The 16 bytes that `mc_status_serialize` writes.
unfoldable pub wire : Status → List ℕ
wire st =
    st.fw_major
    ∷ st.fw_minor
    ∷ st.fw_patch
    ∷ st.lock_state
    ∷ put_u32le st.uptime_ms (
        put_u16le st.battery_mv (
          put_u16le st.output_state_mask (
            put_u16le st.output_fault_mask (
              byte_of st.rssi_dbm
              ∷ (bit st.cheatcode_backoff 1 + bit st.lv_cutoff_active 2 + bit st.hazard_active 4)
              ∷ []))))

-- `mc_status_serialize`; `none` is false.
unfoldable pub serialize : Status → ℕ → Option (List ℕ)
serialize st buf_len = if ltb buf_len 16 then none else some (wire st)

-- `mc_status_deserialize`, of a buffer with anything behind the frame; a shorter one is refused.
unfoldable pub deserialize : List ℕ → Option Status
deserialize
      (b0 ∷ b1 ∷ b2 ∷ b3 ∷ b4 ∷ b5 ∷ b6 ∷ b7 ∷ b8 ∷ b9 ∷ b10 ∷ b11 ∷ b12 ∷ b13 ∷ b14 ∷ b15 ∷ rest) =
    some (record {
      fw_major = b0;
      fw_minor = b1;
      fw_patch = b2;
      lock_state = b3;
      uptime_ms = get_u32le b4 b5 b6 b7;
      battery_mv = get_u16le b8 b9;
      output_state_mask = get_u16le b10 b11;
      output_fault_mask = get_u16le b12 b13;
      rssi_dbm = int8_of b14;
      cheatcode_backoff = b15 % 2 == 1;
      lv_cutoff_active = (b15 / 2) % 2 == 1;
      hazard_active = (b15 / 4) % 2 == 1;
    })
deserialize _ = none
