-- ===== src/Engine/Tests/Small.antt =====
-- A small Drive and a host whose files are a list, for engine.rs.
use gd_client.Prelude.{
  ℕ, suc, String, true, false, none, some, List, [], ◌∷◌, ok, str_eq, if◌then◌else◌,
}
use gd_client.Prelude.Keys.{nat_ord, string_ord}
use gd_client.Common.Config.{SyncFolder}
use gd_client.Common.Paths.{PathBuf}
use gd_client.StateDb.{FileStateEntry}
use gd_client.SyncStatus.{FolderRun, FolderStatus}
use gd_client.Drive.Client.{DriveFile}
use gd_client.Engine.Site.{Remote, Host, Site}
use gd_client.Engine.Watcher.{LocalChange, LocalChangeKind}
use gd_client.Engine.Ownership.{Owner}

abbrev pub file : String → String → String → String → DriveFile
file id name mime_type checksum = record {
  id = id;
  name = name;
  mime_type = mime_type;
  parents = [];
  modified_time = none;
  trashed = false;
  md5_checksum = some checksum;
  size = none;
}

abbrev pub folder_type : String
folder_type = "application/vnd.google-apps.folder"

abbrev pub listing : String → List DriveFile
listing id =
    if str_eq id "root"
    then file "d" "docs" folder_type "" ∷ file "f" "a.txt" "text/plain" "m1" ∷ []
    else file "g" "b.txt" "text/plain" "m2" ∷ []

-- Its state counts the calls.
abbrev pub small_drive : Remote
small_drive = record {
  World = ℕ;
  list_children = λ id w. (ok (some (listing id)), suc w);
  get_start_page_token = λ w. (ok "first", suc w);
  list_changes = λ token w. (
    ok (
        some (
          record {
            file_id = "f";
            removed = false;
            file = some (file "f" "a.txt" "text/plain" "m3");
          }
              ∷ record { file_id = "g"; removed = true; file = none }
              ∷ [],
          "second",
        )),
    suc w,
  );
  create_folder = λ name parent w. (ok (file "new" name folder_type ""), suc w);
  download_file = λ id w. (ok (1 ∷ 2 ∷ []), suc w);
  upload_file = λ id name parent content w. (ok (file "up" name "text/plain" "m4"), suc w);
  delete_file = λ id w. (ok tt, suc w);
}

-- The files that were written, the newest first.
abbrev pub small_host : Host
small_host = record {
  Disk = List PathBuf;
  create_dir_all = λ p d. (ok tt, d);
  read = λ p d. (ok (7 ∷ []), d);
  write = λ p bytes d. (ok tt, p ∷ d);
  metadata = λ p d. (ok false, d);
  exists = λ p d. true;
  remove_dir_all = λ p d. (ok tt, d);
  remove_file = λ p d. (ok tt, d);
  chown = λ p uid gid d. (ok tt, d);
  user_from_name = λ name. some 1000;
  group_from_name = λ name. none;
  current_uid = 0;
  current_gid = 0;
  now_secs = λ d. 100;
  watch = λ p d. (ok tt, d);
}

abbrev pub docs : SyncFolder
docs = record {
  id = 7;
  display_name = "documents";
  drive_folder_id = none;
  drive_folder_path = none;
  local_path = "/" ∷ "home" ∷ "docs" ∷ [];
  owner_user = "me";
  owner_group = "me";
  enabled = true;
}

abbrev pub me : Owner
me = record { uid = 1000; gid = 0 }

abbrev pub run : FolderRun
run = record { id = 7; generation = 3 }

abbrev pub docs_row : FileStateEntry
docs_row = record {
  sync_folder_id = 7;
  local_rel_path = "a.txt";
  drive_file_id = some "f";
  is_folder = false;
  local_mtime_secs = some 1;
  drive_modified_time = none;
  md5_checksum = some "m1";
}

abbrev pub idle_status : FolderStatus
idle_status = record { generation = 3; syncing = false; errors = [] }

abbrev pub site : Site small_drive small_host
site = record {
  drive = 0;
  disk = [];
  db = record { page_tokens = (7, "first") ∷ []; files = docs_row ∷ []; outcomes = [] };
  status = record { state = record { revision = 4; folders = (7, idle_status) ∷ [] }; changes = 4 };
  events = [];
}

abbrev pub change : LocalChange
change = record { path = "/" ∷ "home" ∷ "docs" ∷ "a.txt" ∷ []; kind = LocalChangeKind.modified }
