-- ===== src/Drive.antt =====
-- crates/gdrive-sync/src/auth.rs and drive_client.rs: the OAuth session, and the Drive REST client.
pub mod Redirect
pub mod Auth
pub mod Authorize
pub mod Tokens
pub mod Requests
pub mod Query
pub mod Paging
pub mod Client
pub mod Tests
