-- ===== src/Dewey.antt =====
-- Version numbers: lib/external/dewey.c.
pub mod Int32
pub mod Version
pub mod Compare
