-- ===== src/Fs/DiskManager.antt =====
-- src/fs/diskManager.c: inodes, the bitmaps of free inodes and free blocks, and files as chains of
-- blocks of 256 bytes, on whatever the strategy reads and writes. On disk 0, sector 0 holds the
-- header of the file system and the bitmap of inodes, the sectors from 1 on the inodes, sector 10
-- the bitmap of blocks, and the sectors from 11 on the blocks.
pub mod Bitmap
pub mod Inodes
pub mod Blocks
pub mod Transfer
pub mod Files
pub mod Places
pub mod Headers
pub mod NextInode
pub mod Chains
pub mod Reserve
pub mod ReserveLoop
pub mod Allocate
pub mod Free
pub mod Undo
pub mod Create
pub mod Splice
pub mod Contents
pub mod FileBytes
pub mod SmallFile
pub mod ReadWrite
pub mod Overlap
pub mod Tests
