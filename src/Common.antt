-- ===== src/Common.antt =====
-- src/common: helpers that the launcher and the loader share.
pub mod Path
pub mod PathSystem
mod PathTests
