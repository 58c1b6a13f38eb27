-- ===== src/Access.antt =====
-- src/access and src/session.c: the tables of users and groups, and who the current user is.
pub mod State
pub mod Bits
pub mod Session
pub mod Groups
pub mod Users
pub mod Permission
mod Tests
