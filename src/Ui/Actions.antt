-- ===== src/Ui/Actions.antt =====
-- The methods of `SyncManager` in crates/gdrive-ui/src/cxxqt_object.rs, and the events of its two
-- subscriptions.
use gd_client.Prelude.Keys.{nat_ord, string_ord}
use gd_client.Prelude.{
  ℕ, String, Bool, true, false, ◌||◌, Option, none, some, Result, ok, err, next_u64, if◌then◌else◌,
}
use gd_client.SyncStatus.{SyncStatus, snapshot}
use gd_client.Ui.Requests.{attach}
use gd_client.Ui.Summary.{SyncState, error_state, syncing_state, idle_state, summarize_sync_status}
use gd_client.Ui.Window.{
  Window, SyncManager, Request, refresh_request, sign_in_request, sign_out_request,
  add_folder_request, remove_folder_request, set_folder_enabled_request, list_drive_folders_request,
  dark_mode_request, NewFolderForm, refresh_done, mutation_done, browse_done, dark_mode_done, spawn,
  dispatch, set, cancel_snapshot, cancel_mutation, cancel_browse,
}

-- `dbus_client::SyncStatusEvent` and `dbus_client::AuthenticationEvent`
pub data SyncStatusEvent : Type 0 where
  snapshot_event : SyncStatus → SyncStatusEvent
  unavailable_event : String → SyncStatusEvent

pub data AuthenticationEvent : Type 0 where
  ready : AuthenticationEvent
  changed : Bool → AuthenticationEvent

abbrev pub refresh_started : Result String ℕ × Window → Window
refresh_started (ok handle, w) = set (λ m. record m { snapshot = attach handle m.snapshot }) w
refresh_started (err e, w) = set (λ m. record m { refreshing = false; status_message = e }) w

unfoldable pub begin_refresh : Window → Window
begin_refresh w =
    let v = set (λ m. record m { refreshing = true }) (cancel_snapshot w) in
    refresh_started (
      dispatch refresh_request
        (refresh_done v.manager.snapshot.generation v.manager.authentication_revision) v)

unfoldable pub refresh : Window → Window
refresh w = if w.manager.busy || w.manager.refreshing then w else begin_refresh w

abbrev is_sign_in : Request → Bool
is_sign_in sign_in_request = true
is_sign_in _ = false

abbrev pub mutation_started : Result String ℕ × Window → Window
mutation_started (ok handle, w) = set (λ m. record m { mutation = attach handle m.mutation }) w
mutation_started (err e, w) = set (λ m. record m { busy = false; status_message = e }) w

abbrev pub at_work : SyncManager → SyncManager
at_work m = record m {
  refreshing = false;
  operation_message = none;
  waiting_for_sign_in = false;
  busy = true;
  status_message = "Working...";
}

unfoldable pub begin_mutation : Request → Option String → Window → Window
begin_mutation request success_message w =
    let v = cancel_mutation (set at_work (cancel_snapshot w)) in
    mutation_started (
      dispatch request
        (mutation_done v.manager.mutation.generation (is_sign_in request)
          v.manager.authentication_revision success_message)
        v)

unfoldable pub mutate : Request → Option String → Window → Window
mutate request success_message w =
    if w.manager.busy
    then set (λ m. record m { status_message = "another daemon operation is still in progress" }) w
    else begin_mutation request success_message w

unfoldable pub add_folder : NewFolderForm → Window → Window
add_folder form = mutate (add_folder_request form) none

unfoldable pub remove_folder : String → Window → Window
remove_folder id = mutate (remove_folder_request id) none

unfoldable pub set_folder_enabled : String → Bool → Window → Window
set_folder_enabled id enabled = mutate (set_folder_enabled_request id enabled) none

unfoldable pub sign_in : Window → Window
sign_in =
    mutate sign_in_request (some "opened browser for Google sign-in; waiting for you to finish...")

unfoldable pub sign_out : Window → Window
sign_out = mutate sign_out_request none

abbrev pub browse_started : Result String ℕ × Window → Window
browse_started (ok handle, w) = set (λ m. record m { browse = attach handle m.browse }) w
browse_started (err e, w) =
    set (λ m. record m { drive_folders_error = e; drive_folders_loading = false }) w

abbrev pub loading : SyncManager → SyncManager
loading m = record m {
  drive_folders_json = "[]";
  drive_folders_error = "";
  drive_folders_loading = true;
}

unfoldable pub list_drive_folders : String → Window → Window
list_drive_folders parent_id w =
    let v = set loading (cancel_browse w) in
    browse_started
      (dispatch (list_drive_folders_request parent_id) (browse_done v.manager.browse.generation) v)

unfoldable pub cancel_drive_folders : Window → Window
cancel_drive_folders w = set (λ m. record m { drive_folders_loading = false }) (cancel_browse w)

abbrev pub state_name : SyncState → String
state_name error_state = "error"
state_name syncing_state = "syncing"
state_name idle_state = "idle"

abbrev show_state : String → String → SyncManager → SyncManager
show_state state error m = record m { sync_state = state; sync_error = error }

unfoldable pub on_sync_status : SyncStatusEvent → Window → Window
on_sync_status (snapshot_event snapshot) =
    let (state, error) = summarize_sync_status snapshot in set (show_state (state_name state) error)
on_sync_status (unavailable_event error) = set (show_state "unavailable" error)

abbrev signed : Bool → SyncManager → SyncManager
signed authenticated m = record m {
  authentication_revision = next_u64 m.authentication_revision;
  authenticated = authenticated;
  operation_message = if m.waiting_for_sign_in then none else m.operation_message;
  waiting_for_sign_in = false;
}

abbrev pub note_authentication : AuthenticationEvent → SyncManager → SyncManager
note_authentication ready m = m
note_authentication (changed authenticated) m = signed authenticated m

unfoldable pub on_authentication : AuthenticationEvent → Window → Window
on_authentication event w = refresh (
    set (λ m. record m { refreshing = false })
      (cancel_snapshot (set (note_authentication event) w)))

abbrev pub status_watch_started : Result String ℕ × Window → Window
status_watch_started (ok handle, w) =
    set (λ m. record m { sync_status_watch = attach handle m.sync_status_watch }) w
status_watch_started (err e, w) = set (show_state "unavailable" e) w

abbrev pub authentication_watch_started : Result String ℕ × Window → Window
authentication_watch_started (ok handle, w) =
    set (λ m. record m { authentication_watch = attach handle m.authentication_watch }) w
authentication_watch_started (err e, w) = w

abbrev pub portal_started : Result String ℕ × Window → Window
portal_started (ok handle, w) = set (λ m. record m { portal = attach handle m.portal }) w
portal_started (err e, w) = w

unfoldable pub initialize : Window → Window
initialize w =
    if w.manager.initialized
    then w
    else refresh (
        portal_started (
          dispatch dark_mode_request dark_mode_done (
            authentication_watch_started (
              spawn
                (status_watch_started (spawn (set (λ m. record m { initialized = true }) w)))))))
