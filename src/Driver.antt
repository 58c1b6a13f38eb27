-- ===== src/Driver.antt =====
-- src/driver: the disks, the keyboard and the screen.
pub mod Ata
pub mod Keyboard
pub mod Terminal
