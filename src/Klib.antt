-- ===== src/Klib.antt =====
-- klib, the C library of abstract-machine/klib/src.
pub mod Bytes
pub mod Mem
pub mod Strings
pub mod Stdlib
pub mod Stdio
pub mod Sprintf
mod Tests
