-- ===== src/Daemon/Tests.antt =====
-- The daemon of main.rs with a configured folder and a cached token.
use gd_client.Prelude.{
  String, Option, none, some, Result, ok, err, Bool, Option-cases, inl, inr, List, map, [], ◌∷◌,
  true, false, ◌≡◌, refl,
}
use gd_client.Common.Paths.{PathBuf, parent, join, split_components}
use gd_client.Common.Directories.{ProjectDirs}
use gd_client.Common.Config.{
  ConfigDocument, ConfigStore, AppConfig, SyncFolder, Uuid, load_from, of_document, of_folders,
  to_folder, default_poll_interval_secs,
}
use gd_client.Common.Config.Tests.{one_file}
use gd_client.StateDb.{StateDb, empty_db, statement}
use gd_client.StateDb.Opening.{open_db, migrate}
use gd_client.Drive.Auth.{load_token}
use gd_client.Drive.Tests.Disk.{memory, Files}
use gd_client.Daemon.{Daemon, cached, main}
use gd_client.Daemon.Startup.{Started, main-Started}

abbrev folder : Uuid → Bool → SyncFolder
folder id enabled = record {
  id = id;
  display_name = "documents";
  drive_folder_id = none;
  drive_folder_path = none;
  local_path = "/" ∷ "home" ∷ "docs" ∷ [];
  owner_user = "me";
  owner_group = "me";
  enabled = enabled;
}

abbrev two_folders : List SyncFolder
two_folders = folder 1 true ∷ folder 2 false ∷ []

abbrev no_fields : ConfigDocument
no_fields = record { sync_folders = none; poll_interval_secs = none }

-- Every text is the document of the two folders.
abbrev store : ConfigStore
store = record one_file {
  parse_document = λ s.
      ok (record { sync_folders = some (map to_folder two_folders); poll_interval_secs = none });
}

abbrev dirs : ProjectDirs
dirs = record { config_dir = "config" ∷ []; data_dir = "data" ∷ [] }

abbrev project_dirs_of : String → String → String → Option ProjectDirs
project_dirs_of qualifier organization application = some dirs

abbrev connect : PathBuf → Files → Result String StateDb × Files
connect path d = (ok (empty_db []), d)

abbrev with_token : Files
with_token path = some "a1"

abbrev id_text : Uuid → String
id_text id = "7"

abbrev no_id : String → Result String Uuid
no_id s = err "invalid length"

abbrev quoted : String → String
quoted s = s

abbrev loaded : AppConfig
loaded = record { sync_folders = two_folders; poll_interval_secs = 60 }

main-Started_example :
    (daemon : Daemon store memory) × ((main store memory project_dirs_of connect
        (some (ok tt))
        (some no_fields)
        with_token).0
      ≡ ok daemon)
    × Started store memory id_text no_id quoted project_dirs_of connect loaded
        (cached store memory project_dirs_of connect
          (load_token memory ("data" ∷ "oauth-token.json" ∷ []) with_token))
        daemon
unfolding load_from of_document of_folders to_folder default_poll_interval_secs open_db migrate
    statement join split_components
main-Started_example =
    main-Started store memory id_text no_id quoted project_dirs_of connect dirs refl (λ p d. refl)
      (λ p d. (empty_db [], opened p d)) loaded (some no_fields) with_token refl
  where
    opened :
        (p : PathBuf) (d : Files) → (open_db memory.create_dir_all connect p d).0 ≡ ok (empty_db [])
    opened p d = elim (Option-cases (parent p)) [ inl e ↦ rw e refl | inr (q, e) ↦ rw e refl ]
