-- ===== src/Drive/Tests.antt =====
-- Runs of the Drive client on a disk in memory, a network and pages that are lists.
pub mod Disk
pub mod Sessions
pub mod Network
mod Pages
