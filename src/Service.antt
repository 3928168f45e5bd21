-- ===== src/Service.antt =====
-- crates/gdrived/src/dbus_service.rs: the state behind the D-Bus interface, and its methods. The lock
-- makes what happens under it one step. `sign_out` is two steps, before and after its wait for the
-- task that it cancels; the task itself goes on in the steps of `task_ends` and `sign_in_ends`.
-- A path is printed in its normal form, which `Path` compares by.
pub mod Browse
pub mod Configuration
pub mod Forwarding
pub mod SignIns
mod Tests
use gd_client.Prelude.{
  ℕ, String, Bool, true, false, List, [], ◌∷◌, Option, none, some, Result, ok, err, ◌<>◌, ◌==◌, ◌+◌,
  next_u64, is_some, str_eq, if◌then◌else◌, ◌||◌, map, not, ◌++◌, contains,
}
use gd_client.Prelude.BTreeMap.{BTreeMap}
use gd_client.Common.Paths.{PathBuf, components, display}
use gd_client.Common.Errors.{CommonError, common_to_string, SyncError, error_to_string, IoError}
use gd_client.Common.Config.{Uuid, SyncFolder, AppConfig, ConfigStore, new_folder, save_to}
use gd_client.Drive.Auth.{TokenDisk, StoredToken, OAuthConfig, load_token, is_empty}
use gd_client.Drive.Tokens.{Client, save_session, set_access_token}
use gd_client.Engine.Workers.{SyncEngine, start_folder, stop_folder, start_all, running_folders}

-- `zbus::fdo::Error`
pub data FdoError : Type 0 where
  failed fdo_timeout : String → FdoError

-- How a task ended: it returned, was dropped after its abort, or panicked.
pub data Ending : Type 0 where
  returned cancelled panicked : Ending

-- A sign-in task: the generation that it captured, and its end.
pub record SignIn : Type 0 where
  pub generation : ℕ
  pub aborted : Bool
  pub ending : Option Ending

-- `ServiceState` and the fields of `GDriveService`, with the two disks, the Drive session, the tasks
-- that sign-ins spawned by their number, the task that a `sign_out` waits for (the local variable `task` of
-- the one call that has one, as the history of operations knows it), and the signals that were sent.
pub record ServiceState (S : ConfigStore) (D : TokenDisk) : Type 0 where
  pub config : AppConfig
  pub sign_in_generation : ℕ
  pub sign_in : Option ℕ
  pub cancelling_sign_in : Bool
  pub config_path : PathBuf
  pub token_path : PathBuf
  pub engine : SyncEngine
  pub config_disk : S.Disk
  pub client : Client D
  pub spawned : ℕ
  pub tasks : BTreeMap ℕ SignIn
  pub awaited : Option ℕ
  pub signals : List Bool

-- A row of `list_sync_folders`.
pub record SyncFolderRow : Type 0 where
  pub id : String
  pub display_name : String
  pub drive_folder_id : String
  pub drive_folder_path : String
  pub local_path : String
  pub owner_user : String
  pub owner_group : String
  pub enabled : Bool
  pub running : Bool

abbrev or_empty : Option String → String
or_empty none = ""
or_empty (some s) = s

-- `retain(|f| f.id != id)`
abbrev pub retain_other : Uuid → List SyncFolder → List SyncFolder
retain_other id [] = []
retain_other id (f ∷ fs) = let rest = retain_other id fs in if f.id == id then rest else f ∷ rest

-- `iter_mut().find(|f| f.id == id)`, and the write of `enabled` to what it finds: the folder and the list.
abbrev pub enable_first : Uuid → Bool → List SyncFolder → Option (SyncFolder × List SyncFolder)
enable_first id enabled [] = none
enable_first id enabled (f ∷ fs) =
    let rest = enable_first id enabled fs in
    let found = record f { enabled = enabled } in
    if f.id == id
    then some (found, found ∷ fs)
    else elim rest [ none ↦ none | some r ↦ some (r.0, f ∷ r.1) ]

-- What `add_sync_folder` is called with.
pub record NewFolder : Type 0 where
  pub display_name : String
  pub drive_folder_id : String
  pub drive_folder_path : String
  pub local_path : String
  pub owner_user : String
  pub owner_group : String
  pub enabled : Bool

abbrev pub drive_id_of : String → Option String
drive_id_of id = if is_empty id || str_eq id "root" then none else some id

abbrev pub drive_path_of : Option String → String → Option String
drive_path_of none path = some "My Drive"
drive_path_of (some id) path = if is_empty path then none else some path

-- The folder of a call; `id` is the fresh one.
unfoldable pub folder_of : Uuid → NewFolder → SyncFolder
unfolding new_folder components
folder_of id args =
    let folder =
      new_folder id args.display_name (components args.local_path) args.owner_user
        args.owner_group in
    record folder {
      drive_folder_id = drive_id_of args.drive_folder_id;
      drive_folder_path = drive_path_of (drive_id_of args.drive_folder_id) args.drive_folder_path;
      enabled = args.enabled;
    }

abbrev pub stop_all : List SyncFolder → SyncEngine → SyncEngine
stop_all [] e = e
stop_all (f ∷ fs) e = stop_all fs (stop_folder f.id e)

abbrev pub switch : Bool → SyncFolder → Uuid → SyncEngine → SyncEngine
switch true folder id e = start_folder folder e
switch false folder id e = stop_folder id e

-- `Uuid::to_string` and `Uuid::parse_str`, and `{:?}` of a text.
module _ (S : ConfigStore) (D : TokenDisk) (uuid_to_string : Uuid → String)
    (parse_str : String → Result String Uuid) (debug : String → String) where
  abbrev pub Service : Type 0
  Service = ServiceState S D

  abbrev pub Call : Type 0 → Type 0
  Call A = Service → Result FdoError A × Service

  -- `persist`
  unfoldable pub persist : AppConfig → Call Unit
  persist config s =
      let (r, d) = save_to S config s.config_disk s.config_path in
      elim r [
        | err e ↦ (
          err (failed ("failed to save configuration: " <> common_to_string e)),
          record s { config_disk = d },
        )
        | ok _ ↦ (ok tt, record s { config_disk = d })
      ]

  -- The end of the methods that change folders: persists, and only then commits and tells the engine.
  unfoldable pub commit : {A : Type 0} → AppConfig → (SyncEngine → SyncEngine) → A → Call A
  commit config told result s =
      let (r, s') = persist config s in
      elim r [
        | err e ↦ (err e, s')
        | ok _ ↦ (ok result, record s' { config = config; engine = told s'.engine })
      ]

  -- `parse_uuid`
  abbrev pub invalid_id : String → String → FdoError
  invalid_id id e = failed ("invalid sync folder id " <> (debug id <> (": " <> e)))

  abbrev row : List Uuid → SyncFolder → SyncFolderRow
  row running f = record {
    id = uuid_to_string f.id;
    display_name = f.display_name;
    drive_folder_id = or_empty f.drive_folder_id;
    drive_folder_path = or_empty f.drive_folder_path;
    local_path = display f.local_path;
    owner_user = f.owner_user;
    owner_group = f.owner_group;
    enabled = f.enabled;
    running = contains running f.id;
  }

  unfoldable pub list_sync_folders : Service → List SyncFolderRow
  list_sync_folders s = map (row (running_folders s.engine)) s.config.sync_folders

  abbrev pub push_folder : SyncFolder → AppConfig → AppConfig
  push_folder f c = record c { sync_folders = c.sync_folders ++ (f ∷ []) }

  unfoldable pub add_sync_folder : Uuid → NewFolder → Call String
  add_sync_folder id args s =
      let folder = folder_of id args in
      commit (push_folder folder s.config) (λ e. if args.enabled then start_folder folder e else e)
        (uuid_to_string id) s

  unfoldable pub remove_sync_folder : String → Call Unit
  remove_sync_folder id s = elim (parse_str id) [
    | err e ↦ (err (invalid_id id e), s)
    | ok folder_id ↦
        commit (record s.config { sync_folders = retain_other folder_id s.config.sync_folders })
          (stop_folder folder_id) tt s
  ]

  unfoldable pub set_folder_enabled : String → Bool → Call Unit
  set_folder_enabled id enabled s = elim (parse_str id) [
    | err e ↦ (err (invalid_id id e), s)
    | ok folder_id ↦ elim (enable_first folder_id enabled s.config.sync_folders) [
      | none ↦ (err (failed ("no such sync folder: " <> id)), s)
      | some (folder, folders) ↦
          commit (record s.config { sync_folders = folders }) (switch enabled folder folder_id) tt s
    ]
  ]
