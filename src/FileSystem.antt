-- ===== src/FileSystem.antt =====
-- The file system of a1_filesystem: its image, and the operations of a1fs.c.
pub mod Disk
pub mod Text
pub mod Lookup
pub mod Stat
pub mod Content
pub mod Format
pub mod Directory
pub mod Parent
pub mod Make
pub mod Remove
mod Tests
