-- ===== src/Engine/Site.antt =====
-- Where a worker of crates/gdrive-sync/src/engine.rs runs: Drive, the host's file system, the state
-- database, the tracker and the channel of events. Each call gives the state that Drive or the host is
-- in when it returns, so that what others do to them meanwhile is in it. The rows of a folder and its
-- status are its worker's own.
use gd_client.Prelude.{ℕ, String, Bool, Option, List, ◌∷◌, Result, ok, map_err}
use gd_client.Effects.{Exec}
use gd_client.Common.Paths.{PathBuf}
use gd_client.Common.Errors.{IoError, io}
use gd_client.Common.Config.{Uuid}
use gd_client.StateDb.{StateDb}
use gd_client.SyncStatus.{StatusTracker}
use gd_client.Drive.Client.{DriveFile, Change}

-- The methods of `DriveClient` that a worker calls. Where one does not end, its answer is `none`.
pub record Remote : Type 1 where
  pub World : Type 0
  pub list_children : String → Exec World (Option (List DriveFile))
  pub get_start_page_token : Exec World String
  pub list_changes : String → Exec World (Option (List Change × String))
  pub create_folder : String → String → Exec World DriveFile
  pub download_file : String → Exec World (List ℕ)
  pub upload_file : Option String → String → String → List ℕ → Exec World DriveFile
  pub delete_file : String → Exec World Unit

-- The host: its files, users and clock. `metadata` tells whether a path is a folder.
pub record Host : Type 1 where
  pub Disk : Type 0
  pub create_dir_all : PathBuf → Disk → Result IoError Unit × Disk
  pub read : PathBuf → Disk → Result IoError (List ℕ) × Disk
  pub write : PathBuf → List ℕ → Disk → Result IoError Unit × Disk
  pub metadata : PathBuf → Disk → Result IoError Bool × Disk
  pub exists : PathBuf → Disk → Bool
  pub remove_dir_all : PathBuf → Disk → Result IoError Unit × Disk
  pub remove_file : PathBuf → Disk → Result IoError Unit × Disk
  pub chown : PathBuf → ℕ → ℕ → Disk → Result IoError Unit × Disk
  pub user_from_name : String → Option ℕ
  pub group_from_name : String → Option ℕ
  pub current_uid : ℕ
  pub current_gid : ℕ
  pub now_secs : Disk → ℕ
  pub watch : PathBuf → Disk → Result String Unit × Disk

-- `SyncEvent`
pub data SyncEvent : Type 0 where
  folder_started : Uuid → SyncEvent
  initial_sync_complete : Uuid → ℕ → SyncEvent
  local_change_uploaded : Uuid → PathBuf → SyncEvent
  remote_change_applied : Uuid → PathBuf → SyncEvent
  error_event : Uuid → String → SyncEvent

-- `events` holds what was sent, the newest first.
pub record Site (R : Remote) (H : Host) : Type 0 where
  pub drive : R.World
  pub disk : H.Disk
  pub db : StateDb
  pub status : StatusTracker
  pub events : List SyncEvent

module _ (R : Remote) (H : Host) where
  abbrev pub Work : Type 0 → Type 0
  Work A = Exec (Site R H) A

  module _ {A : Type 0} where
    abbrev pub on_drive : Exec R.World A → Work A
    on_drive m s = let (r, drive) = m s.drive in (r, record s { drive = drive })

    abbrev pub on_disk : (H.Disk → Result IoError A × H.Disk) → Work A
    on_disk m s = let (r, disk) = m s.disk in (map_err io r, record s { disk = disk })

    abbrev pub on_db : Exec StateDb A → Work A
    on_db m s = let (r, db) = m s.db in (r, record s { db = db })

  abbrev pub on_status : (StatusTracker → StatusTracker) → Work Unit
  on_status f s = (ok tt, record s { status = f s.status })

  abbrev pub send_event : SyncEvent → Work Unit
  send_event e s = (ok tt, record s { events = e ∷ s.events })
