-- ===== src/Fat32.antt =====
-- Kernel/src/IO/FileSystem/FAT32.cpp and Headers/FAT32.h: the file system.
pub mod Structs
pub mod Names
pub mod Driver
pub mod Paths
pub mod LongNames
pub mod Finding
pub mod Layout
mod Tests
