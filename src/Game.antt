-- ===== src/Game.antt =====
-- src/game: the games that are known.
pub mod Registry
mod Tests
