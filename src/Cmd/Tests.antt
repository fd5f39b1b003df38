-- ===== src/Cmd/Tests.antt =====
-- The tests of cmd: a small file system and a small terminal, with witnesses.
pub mod Disk
pub mod Screen
mod Session
