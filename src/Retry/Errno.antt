-- ===== src/Retry/Errno.antt =====
-- The error numbers of Linux, negated, as the callbacks return them.
use marc_fs.Base.Words.{ℤ, negsuc}

abbrev pub enoent : ℤ
enoent = negsuc 1

abbrev pub eio : ℤ
eio = negsuc 4

abbrev pub eexist : ℤ
eexist = negsuc 16

abbrev pub einval : ℤ
einval = negsuc 21

abbrev pub enotempty : ℤ
enotempty = negsuc 38
