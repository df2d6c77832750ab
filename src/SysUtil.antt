-- ===== src/SysUtil.antt =====
-- src/sysutil.c: the conversions between numbers and text.
pub mod Numbers
