-- ===== src/Errors.antt =====
-- `MPCommError` of include/mpcomm.h: the codes that the calls of the library return.
use ucl_mpcomm.Common.{ℤ, pos, negsuc}

abbrev pub success : ℤ
success = pos 0

abbrev pub err_device : ℤ
err_device = negsuc 0

abbrev pub err_context : ℤ
err_context = negsuc 1

abbrev pub err_memory : ℤ
err_memory = negsuc 2

abbrev pub err_connection : ℤ
err_connection = negsuc 3

abbrev pub err_transfer : ℤ
err_transfer = negsuc 4

abbrev pub err_timeout : ℤ
err_timeout = negsuc 5

abbrev pub err_invalid_arg : ℤ
err_invalid_arg = negsuc 6

abbrev pub err_invalid_handle : ℤ
err_invalid_handle = negsuc 7
