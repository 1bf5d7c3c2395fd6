-- ===== src/Status/Tests.antt =====
-- A status on the wire.
use moto_ctrl.Base.{ℕ, negsuc, true, false, List, [], ◌∷◌}
use moto_ctrl.Status.Frame.{Status}

abbrev sample : Status
sample = record {
  fw_major = 0;
  fw_minor = 8;
  fw_patch = 4;
  lock_state = 2;
  uptime_ms = 123456789;
  battery_mv = 12650;
  output_state_mask = 2049;
  output_fault_mask = 4;
  rssi_dbm = negsuc 60;
  cheatcode_backoff = true;
  lv_cutoff_active = false;
  hazard_active = true;
}

abbrev sample_frame : List ℕ
sample_frame = 0 ∷ 8 ∷ 4 ∷ 2 ∷ 21 ∷ 205 ∷ 91 ∷ 7 ∷ 106 ∷ 49 ∷ 1 ∷ 8 ∷ 4 ∷ 0 ∷ 195 ∷ 5 ∷ []
