-- ===== src/Ui.antt =====
-- crates/gdrive-ui/src/dbus_client.rs and cxxqt_object.rs: the window's object `SyncManager`, its requests
-- to the daemon whose answers come later, and the summary of the sync status.
pub mod Requests
pub mod Summary
pub mod StatusSession
pub mod Watch
pub mod Window
pub mod Actions
pub mod Completions
pub mod LocalFolders
pub mod Futures
pub mod Bus
pub mod Deadlines
pub mod Performed
pub mod Committed
mod Waiting
mod Live
pub mod Progress
pub mod OneOperation
mod BusTests
mod Tests
