-- ===== src/Util.antt =====
-- src/util: containers and synchronisation.
pub mod Cells
pub mod CircularBuffer
pub mod Semaphore
pub mod Lists
