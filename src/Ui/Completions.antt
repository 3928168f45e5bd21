-- ===== src/Ui/Completions.antt =====
-- The completions of the requests of `SyncManager` in crates/gdrive-ui/src/cxxqt_object.rs, which run on
-- the Qt thread. The JSON encoders and the text of a number are parameters.
use gd_client.Prelude.Keys.{nat_ord, string_ord}
use gd_client.Prelude.{
  ℕ, zero, suc, String, ◌<>◌, Bool, true, false, not, ◌&&◌, ◌==◌, Option, none, some, is_some, List,
  [], ◌∷◌, map, length, Result, ok, err, if◌then◌else◌,
}
use gd_client.Service.{SyncFolderRow}
use gd_client.Ui.Requests.{finish}
use gd_client.Ui.Window.{
  Window, SyncManager, Response, snapshot_response, done_response, drive_folders_response,
  dark_mode_response, SyncFolderView, DriveFolderView, NewFolderForm, Completion, refresh_done,
  mutation_done, browse_done, dark_mode_done, Task, set,
}
use gd_client.Ui.Actions.{
  refresh, SyncStatusEvent, AuthenticationEvent, initialize, sign_in, sign_out, add_folder,
  remove_folder, set_folder_enabled, list_drive_folders, cancel_drive_folders, on_sync_status,
  on_authentication,
}

abbrev view_of : SyncFolderRow → SyncFolderView
view_of row = record {
  id = row.id;
  display_name = row.display_name;
  drive_folder_id = row.drive_folder_id;
  drive_folder_path = row.drive_folder_path;
  local_path = row.local_path;
  owner_user = row.owner_user;
  owner_group = row.owner_group;
  enabled = row.enabled;
  running = row.running;
}

abbrev message_of : Bool → Bool → Option String → Result String Response → Option String
message_of signing_in same_revision success_message (ok done_response) =
    if signing_in && not same_revision then none else success_message
message_of signing_in same_revision success_message (err error) = some error
message_of signing_in same_revision success_message (ok _) =
    some "unexpected response to daemon operation"

abbrev is_done : Result String Response → Bool
is_done (ok done_response) = true
is_done _ = false

abbrev or_message : Option String → String → String
or_message none message = message
or_message (some m) message = m

abbrev pub mutated : Bool → ℕ → Option String → Result String Response → SyncManager → SyncManager
mutated signing_in revision success_message result m =
    let message =
      message_of signing_in (m.authentication_revision == revision) success_message result in
    record m {
      busy = false;
      status_message = or_message message m.status_message;
      waiting_for_sign_in = signing_in && is_done result && is_some message;
      operation_message = message;
    }

unfoldable pub complete_mutation :
    ℕ → Bool → ℕ → Option String → Result String Response → Window → Window
complete_mutation generation signing_in revision success_message result w =
    let (accepted, request) = finish generation w.manager.mutation in
    if accepted
    then refresh (
        set (mutated signing_in revision success_message result)
          (set (λ m. record m { mutation = request }) w))
    else w

unfoldable pub complete_dark_mode : Result String Response → Window → Window
complete_dark_mode (ok (dark_mode_response dark)) = set (λ m. record m { dark_mode = dark })
complete_dark_mode _ = λ w. w

-- What a refresh found: the encoded folders, their number and the answer on the authentication.
abbrev pub Found : Type 0
Found = (String × ℕ) × Result String Bool

abbrev pub take_authentication : Result String Bool → SyncManager → SyncManager
take_authentication (ok authenticated) m = record m {
  authenticated = authenticated;
  operation_message = if authenticated && m.waiting_for_sign_in then none else m.operation_message;
  waiting_for_sign_in = not authenticated && m.waiting_for_sign_in;
}
take_authentication (err _) m = m

abbrev with_error : Result String Bool → String → String
with_error (ok _) message = message
with_error (err error) message = message <> ("; authentication status unavailable: " <> error)

module _ (encode_folders : List SyncFolderView → Result String String)
    (encode_drive_folders : List DriveFolderView → Result String String)
    (nat_text : ℕ → String) where
  abbrev counted : Result String String → ℕ → Result String Bool → Result String Found
  counted (ok json) count authenticated = ok ((json, count), authenticated)
  counted (err e) count authenticated = err ("could not encode sync folders: " <> e)

  abbrev pub found : Result String Response → Result String Found
  found (ok (snapshot_response rows authenticated)) =
      counted (encode_folders (map view_of rows)) (length rows) authenticated
  found (err error) = err error
  found (ok _) = err "unexpected response to sync-folder request"

  abbrev pub show_found : ℕ → Result String Found → SyncManager → SyncManager
  show_found revision (err e) m = record m { connected = false; status_message = e }
  show_found revision (ok ((json, count), authenticated)) m =
      let same = m.authentication_revision == revision in
      let n = if same then take_authentication authenticated m else m in
      let message = or_message n.operation_message (nat_text count <> " sync folder(s)") in
      record n {
        folders_json = json;
        connected = true;
        status_message = if same then with_error authenticated message else message;
      }

  unfoldable pub complete_refresh : ℕ → ℕ → Result String Response → Window → Window
  complete_refresh generation revision result w =
      let (accepted, request) = finish generation w.manager.snapshot in
      if accepted
      then set (show_found revision (found result))
          (set (λ m. record m { snapshot = request; refreshing = false }) w)
      else w

  abbrev pub drive_folders : Result String String → SyncManager → SyncManager
  drive_folders (ok json) m = record m { drive_folders_json = json; drive_folders_loading = false }
  drive_folders (err e) m = record m {
    drive_folders_error = "could not encode Drive folders: " <> e;
    drive_folders_loading = false;
  }

  abbrev pub show_drive_folders : Result String Response → SyncManager → SyncManager
  show_drive_folders (ok (drive_folders_response rows)) =
      drive_folders
        (encode_drive_folders (map (λ (id, name). record { id = id; name = name }) rows))
  show_drive_folders (err e) =
      λ m. record m { drive_folders_error = e; drive_folders_loading = false }
  show_drive_folders (ok _) = λ m. record m {
    drive_folders_error = "unexpected response to Drive-folder request";
    drive_folders_loading = false;
  }

  unfoldable pub complete_browse : ℕ → Result String Response → Window → Window
  complete_browse generation result w =
      let (accepted, request) = finish generation w.manager.browse in
      if accepted
      then set (show_drive_folders result) (set (λ m. record m { browse = request }) w)
      else w

  unfoldable pub complete : Completion → Result String Response → Window → Window
  complete (refresh_done generation revision) = complete_refresh generation revision
  complete (mutation_done generation signing_in revision success_message) =
      complete_mutation generation signing_in revision success_message
  complete (browse_done generation) = complete_browse generation
  complete dark_mode_done = complete_dark_mode

abbrev pub put_back : Task → Option (Task × List Task) → Option (Task × List Task)
put_back t none = none
put_back t (some (u, us)) = some (u, t ∷ us)

-- The `n`th task, and the others.
abbrev pub pick : ℕ → List Task → Option (Task × List Task)
pick n [] = none
pick zero (t ∷ ts) = some (t, ts)
pick (suc n) (t ∷ ts) = put_back t (pick n ts)

-- Everything that happens to the window: the user, the subscriptions, and the answer to a task.
pub data UiOp : Type 0 where
  initialize_op refresh_op sign_in_op sign_out_op cancel_drive_folders_op : UiOp
  add_folder_op : NewFolderForm → UiOp
  remove_folder_op list_drive_folders_op : String → UiOp
  set_folder_enabled_op : String → Bool → UiOp
  sync_status_op : SyncStatusEvent → UiOp
  authentication_op : AuthenticationEvent → UiOp
  answer_op : ℕ → Result String Response → UiOp

module _ (encode_folders : List SyncFolderView → Result String String)
    (encode_drive_folders : List DriveFolderView → Result String String)
    (nat_text : ℕ → String) where
  abbrev pub answer : Result String Response → Window → Option (Task × List Task) → Window
  answer result w none = w
  answer result w (some (task, others)) =
      complete encode_folders encode_drive_folders nat_text task.complete result
        (record w { tasks = others })

  unfoldable pub ui_op : UiOp → Window → Window
  ui_op initialize_op = initialize
  ui_op refresh_op = refresh
  ui_op sign_in_op = sign_in
  ui_op sign_out_op = sign_out
  ui_op cancel_drive_folders_op = cancel_drive_folders
  ui_op (add_folder_op form) = add_folder form
  ui_op (remove_folder_op id) = remove_folder id
  ui_op (list_drive_folders_op parent_id) = list_drive_folders parent_id
  ui_op (set_folder_enabled_op id enabled) = set_folder_enabled id enabled
  ui_op (sync_status_op event) = on_sync_status event
  ui_op (authentication_op event) = on_authentication event
  ui_op (answer_op n result) = λ w. answer result w (pick n w.tasks)

  unfoldable pub ui_ops : List UiOp → Window → Window
  ui_ops [] w = w
  ui_ops (op ∷ ops) w = ui_ops ops (ui_op op w)
