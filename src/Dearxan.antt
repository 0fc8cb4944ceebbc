-- ===== src/Dearxan.antt =====
-- src/dearxan: removal of the Arxan checks from a loaded game.
pub mod Encryption
pub mod RegionLists
pub mod Entropy
pub mod Resolve
pub mod Image
pub mod ImageTables
pub mod ImageProtection
pub mod ImageFile
pub mod Vm
mod Tests
mod VmTests
mod ImageTests
mod ResolveTests
