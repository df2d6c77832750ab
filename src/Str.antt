-- ===== src/Str.antt =====
-- src/str.c: the string type that every other part of the server works with.
pub mod Buf
pub mod Chars
pub mod Compare
pub mod Locate
pub mod Split
pub mod Edit
pub mod Lines
