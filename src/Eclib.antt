-- ===== src/Eclib.antt =====
-- The C library (source/eclib).
pub mod Memory
pub mod Strings
pub mod Format
