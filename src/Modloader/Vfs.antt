-- ===== src/Modloader/Vfs.antt =====
-- src/modloader/vfs.c: the virtual file system over the mods' files.
pub mod Normalize
pub mod Table
pub mod AssociationTable
pub mod Index
pub mod Wide
pub mod Undo
pub mod Package
pub mod Uid
pub mod Lookup
pub mod Writable
