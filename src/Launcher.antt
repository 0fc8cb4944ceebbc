-- ===== src/Launcher.antt =====
-- src/launcher: what starts a game with the loader in it.
pub mod LaunchConfig
pub mod ConfigPaths
mod Tests
