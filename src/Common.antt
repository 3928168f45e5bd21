-- ===== src/Common.antt =====
-- What the crates share: paths, errors, and the configuration of crates/gdrive-common.
pub mod Paths
pub mod Errors
pub mod Directories
pub mod Config
