-- ===== src/Ui/BusTests.antt =====
-- Requests to a daemon that answers after a second, or never, and a local folder that is created.
use gd_client.Prelude.{
  List, ℕ, String, none, some, [], ◌∷◌, Result, ok, err, Option, ◌≡◌, ◌≤◌, ◌+◌, refl, false, str_eq,
  if◌then◌else◌,
}
use gd_client.Common.Config.{Uuid, AppConfig}
use gd_client.Common.Paths.{PathBuf, parent}
use gd_client.Common.Config.Tests.{one_file, one_file-IsLawful}
use gd_client.Drive.Tests.Disk.{memory, token_path}
use gd_client.Drive.Tests.Sessions.{client}
use gd_client.Engine.Workers.{new_engine}
use gd_client.Service.{ServiceState, FdoError, failed, fdo_timeout}
use gd_client.Service.SignIns.Histories.{new_service}
use gd_client.Common.Errors.{IoError}
use gd_client.Ui.LocalFolders.{Made, create_local_folder, create_local_folder-Made}
use gd_client.Ui.Window.{Window, new_window, list_drive_folders_request}
use gd_client.Ui.Futures.{Call, Timed}
use gd_client.Ui.Bus.{execute}
use gd_client.Ui.Deadlines.{execute-ends}
use gd_client.Ui.Committed.{Pace, Setting, daemon_bus}

abbrev config : AppConfig
config = record { sync_folders = []; poll_interval_secs = 60 }

abbrev fresh : ServiceState one_file memory
fresh =
    new_service one_file memory config ("config.toml" ∷ []) token_path (new_engine config) none
      client

abbrev uuid_text : Uuid → String
uuid_text id = "7"

abbrev parse_str : String → Result String Uuid
parse_str s = if str_eq s "7" then ok 7 else err "invalid length"

abbrev quoted : String → String
quoted s = s

abbrev text_of : FdoError → String
text_of (failed e) = e
text_of (fdo_timeout e) = e

-- A call of the library that does nothing to the daemon.
abbrev passes : {A : Type 0} → Option ℕ → A → Call (ServiceState one_file memory) A
passes takes a = record { takes = λ s. takes; result = λ s. ok a; done = λ s. s; left = λ n s. s }

abbrev pace : Pace (ServiceState one_file memory)
pace = record { takes = λ s. some 1000; before = λ s. s; after = λ s. s; reached = λ n s. false }

abbrev setting : Setting one_file one_file-IsLawful memory uuid_text parse_str quoted
setting = record {
  message = text_of;
  pace = pace;
  fresh = λ s. 7;
  credentials = none;
  meanwhile = λ s. s;
  Reply = ℕ;
  connect = λ deadline. passes (some 10) tt;
  new_proxy = passes (some 1) tt;
  read_color_scheme = passes (some 1) 1;
  color_scheme = λ n. ok n;
  list_drive_folders = λ parent. passes none [];
}

abbrev start : Timed (ServiceState one_file memory)
start = record { now = 100; world = fresh }

execute-ends_example :
    (execute
      (daemon_bus one_file one_file-IsLawful memory uuid_text parse_str quoted setting)
      (list_drive_folders_request "")
      start).1.now
    ≤ 100 + 30000
execute-ends_example =
    execute-ends (daemon_bus one_file one_file-IsLawful memory uuid_text parse_str quoted setting)
      (list_drive_folders_request "") start

gave_up :
    (execute
      (daemon_bus one_file one_file-IsLawful memory uuid_text parse_str quoted setting)
      (list_drive_folders_request "")
      start).0
    ≡ err "gdrived request timed out after 30 seconds. Check the daemon and connection, then retry."
unfolding execute
gave_up = refl

-- The directories that were made.
abbrev make : PathBuf → List PathBuf → Result IoError Unit × List PathBuf
make path made = (ok tt, path ∷ made)

abbrev opened : Window
opened = new_window none

one_made :
    (create_local_folder make "/home/me" "docs" opened []).2
    ≡ ("/" ∷ "home" ∷ "me" ∷ "docs" ∷ []) ∷ []
unfolding create_local_folder
one_made = refl

create_local_folder-Made_example :
    Made make "/home/me" "docs" opened [] (create_local_folder make "/home/me" "docs" opened [])
create_local_folder-Made_example = create_local_folder-Made make "/home/me" "docs" opened []
