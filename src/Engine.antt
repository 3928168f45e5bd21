-- ===== src/Engine.antt =====
-- crates/gdrive-sync/src/engine.rs: the workers of the folders, and what a worker does.
pub mod Life
pub mod Workers
pub mod Site
pub mod Ownership
pub mod Watcher
pub mod Pull
pub mod Local
pub mod Poll
pub mod Folder
mod Tests
