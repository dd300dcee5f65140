-- ===== src/Jxx/ErrorCode.antt =====
-- jxx.api.h: `_JxxConpect` and `_JxxErrorCode`, which an error code joins by `|`.
use chakra_jxx.Base.{ℕ}

abbrev pub eo_jsrt : ℕ
eo_jsrt = 0

abbrev pub eo_file : ℕ
eo_file = 0x01000000

abbrev pub eo_path : ℕ
eo_path = 0x02000000

abbrev pub eo_memory : ℕ
eo_memory = 0x03000000

abbrev pub eo_pivotal_data : ℕ
eo_pivotal_data = 0x04000000

abbrev pub eo_module : ℕ
eo_module = 0x050000000

abbrev pub ec_none : ℕ
ec_none = 0

abbrev pub ec_not_exists : ℕ
ec_not_exists = 1

abbrev pub ec_has_existed : ℕ
ec_has_existed = 2

abbrev pub ec_unmatch : ℕ
ec_unmatch = 3

abbrev pub ec_bad_format : ℕ
ec_bad_format = 5

abbrev pub ec_io_read : ℕ
ec_io_read = 6

abbrev pub ec_not_enough : ℕ
ec_not_enough = 8
