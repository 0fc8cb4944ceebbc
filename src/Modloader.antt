-- ===== src/Modloader.antt =====
-- src/modloader: the DLL inside the game.
pub mod Vfs
pub mod Lifecycle
pub mod SaveMapping
pub mod SaveExtensions
mod Tests
mod SaveMappingTests
