-- ===== src/Errors.antt =====
-- src/ipc/errors.c: the message of the last error, one for each thread. The format has been applied.
use axctl_c.Prelude.{ℕ, [], CString, take}

-- What fits into `g_error_buf`.
abbrev pub error_size : ℕ
error_size = 1023

unfoldable pub set_error : CString → CString → CString
set_error buf message = take error_size message

unfoldable pub get_error : CString → CString
get_error buf = buf

unfoldable pub clear_error : CString → CString
clear_error buf = []
