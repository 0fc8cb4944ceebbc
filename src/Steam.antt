-- ===== src/Steam.antt =====
-- src/steam: finding the games that Steam has installed.
pub mod Vdf
mod Tests
