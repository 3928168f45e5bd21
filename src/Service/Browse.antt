-- ===== src/Service/Browse.antt =====
-- `list_drive_folders` of crates/gdrived/src/dbus_service.rs, over the listing of the Drive client.
use gd_client.Prelude.{
  String, ◌<>◌, true, false, Option, none, some, List, map, Result, err, map_err, if◌then◌else◌,
}
use gd_client.Common.Errors.{
  SyncError, common, io, notify, sqlite, http, api, not_authenticated, reauthentication_required,
  timeout, oauth_transport, oauth, error_to_string,
}
use gd_client.Effects.{Exec, ◌>>=◌, pure}
use gd_client.Drive.Auth.{is_empty}
use gd_client.Drive.Client.{DriveFile, Deadline, met, missed}

-- The errors of `zbus::fdo` that the listing tells apart.
data BusError : Type 0 where
  access_denied timed_out failed : String → BusError

unfoldable bus_error : SyncError → BusError
unfolding error_to_string
bus_error not_authenticated =
    access_denied ("Cannot browse Google Drive: " <> error_to_string not_authenticated)
bus_error reauthentication_required =
    access_denied ("Cannot browse Google Drive: " <> error_to_string reauthentication_required)
bus_error (timeout operation) = timed_out (error_to_string (timeout operation))
bus_error (http e true) =
    timed_out ("failed to list Drive folders: " <> error_to_string (http e true))
bus_error (http e false) =
    failed ("failed to list Drive folders: " <> error_to_string (http e false))
bus_error (common e) = failed ("failed to list Drive folders: " <> error_to_string (common e))
bus_error (io e) = failed ("failed to list Drive folders: " <> error_to_string (io e))
bus_error (notify e) = failed ("failed to list Drive folders: " <> error_to_string (notify e))
bus_error (sqlite e) = failed ("failed to list Drive folders: " <> error_to_string (sqlite e))
bus_error (api e) = failed ("failed to list Drive folders: " <> error_to_string (api e))
bus_error (oauth_transport e) =
    failed ("failed to list Drive folders: " <> error_to_string (oauth_transport e))
bus_error (oauth e) = failed ("failed to list Drive folders: " <> error_to_string (oauth e))

abbrev id_and_name : DriveFile → String × String
id_and_name f = (f.id, f.name)

abbrev drive_folder_rows : Option (List DriveFile) → Option (List (String × String))
drive_folder_rows none = none
drive_folder_rows (some folders) = some (map id_and_name folders)

-- `list` is `DriveClient::list_child_folders`, `none` where it does not end.
module _ {S : Type 0} (list : String → Exec S (Option (List DriveFile))) where
  -- `SyncEngine::list_child_folders`
  unfoldable engine_folders : String → Exec S (Option (List (String × String)))
  engine_folders folder_id = do folders ← list folder_id; pure (drive_folder_rows folders)

  -- `list_drive_folders`; when the deadline is missed, the listing is dropped in the state that it left.
  unfoldable list_drive_folders :
      Deadline S → String → S → Result BusError (Option (List (String × String))) × S
  list_drive_folders (missed left) parent_id s =
      (err (timed_out "listing Drive folders exceeded 27 seconds"), left s)
  list_drive_folders met parent_id s =
      let (r, t) = engine_folders (if is_empty parent_id then "root" else parent_id) s in
      (map_err bus_error r, t)
