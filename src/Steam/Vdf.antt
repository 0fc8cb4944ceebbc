-- ===== src/Steam/Vdf.antt =====
-- src/steam/vdf.c, the reader of Valve's text KeyValues, in the order of its sections.
pub mod Chars
pub mod Reader
pub mod Conditional
pub mod Tree
pub mod Block
pub mod Load
pub mod File
pub mod Render
