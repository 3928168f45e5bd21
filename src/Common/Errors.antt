-- ===== src/Common/Errors.antt =====
-- crates/gdrive-common/src/error.rs and crates/gdrive-sync/src/error.rs. An error of a library is kept
-- as its own message, with the classification that the code asks of it.
use gd_client.Prelude.{Bool, String, ◌<>◌}

-- `std::io::Error`, whose kind the code compares with `NotFound`.
pub record IoError : Type 0 where
  pub not_found : Bool
  pub message : String

pub data CommonError : Type 0 where
  no_home_directory : CommonError
  common_io : IoError → CommonError
  toml_de toml_ser : String → CommonError

pub data SyncError : Type 0 where
  common : CommonError → SyncError
  io : IoError → SyncError
  notify : String → SyncError
  sqlite : String → SyncError
  http : String → Bool → SyncError
  api : String → SyncError
  not_authenticated : SyncError
  reauthentication_required : SyncError
  timeout : String → SyncError
  oauth_transport : String → SyncError
  oauth : String → SyncError

unfoldable pub common_to_string : CommonError → String
common_to_string no_home_directory = "could not determine the current user's home directory"
common_to_string (common_io e) = "I/O error: " <> e.message
common_to_string (toml_de e) = "failed to parse configuration: " <> e
common_to_string (toml_ser e) = "failed to serialize configuration: " <> e

-- `Display for SyncError`; the flag of `http` is `reqwest::Error::is_timeout`, and `timeout` leaves
-- its source out, which the message does not show.
unfoldable pub error_to_string : SyncError → String
unfolding common_to_string
error_to_string (common e) = common_to_string e
error_to_string (io e) = "I/O error: " <> e.message
error_to_string (notify e) = "local filesystem watcher error: " <> e
error_to_string (sqlite e) = "SQLite state store error: " <> e
error_to_string (http e _) = "Drive API request failed: " <> e
error_to_string (api e) = "Drive API returned an error: " <> e
error_to_string not_authenticated = "not authenticated with Google Drive yet"
error_to_string reauthentication_required =
    "Google Drive credentials expired or were revoked. Sign out and sign in again."
error_to_string (timeout operation) = "timed out while " <> operation
error_to_string (oauth_transport e) =
    "OAuth token refresh transport failed; check the connection and retry"
error_to_string (oauth e) = "OAuth2 error: " <> e
