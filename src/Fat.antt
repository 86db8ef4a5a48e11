-- ===== src/Fat.antt =====
-- The FAT16 file system of lib/fat.
pub mod Card
pub mod Bytes
pub mod State
pub mod Error
pub mod Cache
pub mod Table
pub mod Dir
pub mod Path
pub mod Entry
pub mod Desc
pub mod Seek
pub mod Truncate
pub mod Action
pub mod Mount
pub mod Messages
pub mod Tests
