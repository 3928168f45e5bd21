-- ===== src/Ui/Window.antt =====
-- The state of `SyncManager` in crates/gdrive-ui/src/cxxqt_object.rs, and `dispatch`: a task runs a
-- request of crates/gdrive-ui/src/dbus_client.rs, and its answer comes back through a completion.
use gd_client.Prelude.{
  ℕ, suc, String, Bool, false, Option, none, some, List, [], ◌∷◌, Result, ok, err,
}
use gd_client.Service.{SyncFolderRow}
use gd_client.Ui.Requests.{PendingRequest, new_request, cancel}

pub record NewFolderForm : Type 0 where
  pub display_name : String
  pub drive_folder_id : String
  pub drive_folder_path : String
  pub local_path : String
  pub owner_user : String
  pub owner_group : String
  pub enabled : Bool

-- `dbus_client::Request` and `dbus_client::Response`
pub data Request : Type 0 where
  refresh_request : Request
  add_folder_request : NewFolderForm → Request
  remove_folder_request : String → Request
  set_folder_enabled_request : String → Bool → Request
  sign_in_request sign_out_request : Request
  list_drive_folders_request : String → Request
  dark_mode_request : Request

pub data Response : Type 0 where
  snapshot_response : List SyncFolderRow → Result String Bool → Response
  done_response : Response
  drive_folders_response : List (String × String) → Response
  dark_mode_response : Bool → Response

-- `SyncFolderView`, in the order of its fields in JSON
pub record SyncFolderView : Type 0 where
  pub id : String
  pub display_name : String
  pub drive_folder_id : String
  pub drive_folder_path : String
  pub local_path : String
  pub owner_user : String
  pub owner_group : String
  pub enabled : Bool
  pub running : Bool

pub record DriveFolderView : Type 0 where
  pub id : String
  pub name : String

-- `SyncManagerRust`
pub record SyncManager : Type 0 where
  pub folders_json : String
  pub status_message : String
  pub connected : Bool
  pub authenticated : Bool
  pub dark_mode : Bool
  pub busy : Bool
  pub refreshing : Bool
  pub sync_state : String
  pub sync_error : String
  pub drive_folders_json : String
  pub drive_folders_error : String
  pub drive_folders_loading : Bool
  pub initialized : Bool
  pub operation_message : Option String
  pub waiting_for_sign_in : Bool
  pub snapshot : PendingRequest
  pub mutation : PendingRequest
  pub browse : PendingRequest
  pub portal : PendingRequest
  pub authentication_watch : PendingRequest
  pub authentication_revision : ℕ
  pub sync_status_watch : PendingRequest

-- `SyncManagerRust::default`
abbrev pub new_manager : SyncManager
new_manager = record {
  folders_json = "";
  status_message = "";
  connected = false;
  authenticated = false;
  dark_mode = false;
  busy = false;
  refreshing = false;
  sync_state = "starting";
  sync_error = "Waiting for daemon sync status";
  drive_folders_json = "[]";
  drive_folders_error = "";
  drive_folders_loading = false;
  initialized = false;
  operation_message = none;
  waiting_for_sign_in = false;
  snapshot = new_request;
  mutation = new_request;
  browse = new_request;
  portal = new_request;
  authentication_watch = new_request;
  authentication_revision = 0;
  sync_status_watch = new_request;
}

-- The closures given to `dispatch`, with what they capture.
pub data Completion : Type 0 where
  refresh_done : ℕ → ℕ → Completion
  mutation_done : ℕ → Bool → ℕ → Option String → Completion
  browse_done : ℕ → Completion
  dark_mode_done : Completion

pub record Task : Type 0 where
  pub handle : ℕ
  pub request : Request
  pub complete : Completion

-- The object and the worker threads. `runtime` is the error that starting these gave, if it did.
-- `tasks` are those whose completion has not run; an aborted one may have queued it before.
pub record Window : Type 0 where
  pub manager : SyncManager
  pub runtime : Option String
  pub next_handle : ℕ
  pub tasks : List Task
  pub aborted : List ℕ

abbrev pub new_window : Option String → Window
new_window runtime = record {
  manager = new_manager;
  runtime = runtime;
  next_handle = 0;
  tasks = [];
  aborted = [];
}

abbrev spawned : Option String → ℕ → Result String ℕ
spawned none handle = ok handle
spawned (some e) handle = err e

unfoldable pub spawn : Window → Result String ℕ × Window
spawn w = (spawned w.runtime w.next_handle, record w { next_handle = suc w.next_handle })

abbrev pub add_task : Request → Completion → Result String ℕ → List Task → List Task
add_task request complete (ok handle) tasks =
    record { handle = handle; request = request; complete = complete } ∷ tasks
add_task request complete (err _) tasks = tasks

unfoldable pub dispatch : Request → Completion → Window → Result String ℕ × Window
unfolding spawn
dispatch request complete w =
    let (started, v) = spawn w in
    (started, record v { tasks = add_task request complete started v.tasks })

abbrev abort : Option ℕ → List ℕ → List ℕ
abort none aborted = aborted
abort (some handle) aborted = handle ∷ aborted

-- `self.snapshot.cancel()`
unfoldable pub cancel_snapshot : Window → Window
unfolding cancel
cancel_snapshot w =
    let (request, handle) = cancel w.manager.snapshot in
    record w { manager = record w.manager { snapshot = request }; aborted = abort handle w.aborted }

unfoldable pub cancel_browse : Window → Window
unfolding cancel
cancel_browse w =
    let (request, handle) = cancel w.manager.browse in
    record w { manager = record w.manager { browse = request }; aborted = abort handle w.aborted }

unfoldable pub cancel_mutation : Window → Window
unfolding cancel
cancel_mutation w =
    let (request, handle) = cancel w.manager.mutation in
    record w { manager = record w.manager { mutation = request }; aborted = abort handle w.aborted }

-- The setters of the properties, and access to the other fields.
unfoldable pub set : (SyncManager → SyncManager) → Window → Window
set f w = record w { manager = f w.manager }
