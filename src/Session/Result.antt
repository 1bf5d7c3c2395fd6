-- ===== src/Session/Result.antt =====
-- MC_RESULT_* of firmware/components/core/include/mc_protocol.h.
use moto_ctrl.Base.{ℕ}

abbrev pub ok : ℕ
ok = 0

abbrev pub unauthenticated : ℕ
unauthenticated = 1

abbrev pub bad_request : ℕ
bad_request = 2

abbrev pub rejected : ℕ
rejected = 3

abbrev pub enroll_denied : ℕ
enroll_denied = 4

abbrev pub keystore_full : ℕ
keystore_full = 5

abbrev pub not_found : ℕ
not_found = 6

abbrev pub internal : ℕ
internal = 8
