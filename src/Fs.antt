-- ===== src/Fs.antt =====
-- src/fs: the cached disk and the file system on it.
pub mod DiskCache
pub mod Strategy
pub mod Structs
pub mod DiskManager
pub mod Directory
pub mod FileSystem
