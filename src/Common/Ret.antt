-- ===== src/Common/Ret.antt =====
-- libchula/common.h: the status that the functions return.

use mathlib.Core.Bool.{Bool, true, false}

-- `ret_t`. A constructor is the C name without its `ret_`.
pub data Ret : Type 0 where
  no_sys nomem deny error ok eof eof_have_data not_found file_not_found eagain ok_and_sent : Ret

abbrev pub is_ok : Ret → Bool
is_ok ok = true
is_ok _ = false
