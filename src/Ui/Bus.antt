-- ===== src/Ui/Bus.antt =====
-- `execute` and `call` of crates/gdrive-ui/src/dbus_client.rs: what becomes of a request of the user
-- interface on the bus.
use gd_client.Prelude.{
  ℕ, String, Bool, true, false, List, Result, ok, err, and_then, ◌==◌, ◌+◌, if◌then◌else◌,
}
use gd_client.Service.{SyncFolderRow}
use gd_client.Ui.Window.{
  NewFolderForm, Request, refresh_request, add_folder_request, remove_folder_request,
  set_folder_enabled_request, sign_in_request, sign_out_request, list_drive_folders_request,
  dark_mode_request, Response, snapshot_response, done_response, drive_folders_response,
  dark_mode_response,
}
use gd_client.Ui.Futures.{Future, Call, Timed, await, done_with, then_await, bounded, bounded_until}

abbrev pub control_timeout : ℕ
control_timeout = 5000

abbrev pub browse_timeout : ℕ
browse_timeout = 30000

-- The session bus, as `zbus` gives it: the daemon's methods on its proxy, and the setting of the
-- desktop portal, whose answer is still to be read.
pub record Bus : Type 1 where
  pub World : Type 0
  pub Reply : Type 0
  pub connect : ℕ → Call World Unit
  pub new_proxy : Call World Unit
  pub read_color_scheme : Call World Reply
  pub color_scheme : Reply → Result String ℕ
  pub list_sync_folders : Call World (List SyncFolderRow)
  pub is_authenticated : Call World Bool
  pub add_sync_folder : NewFolderForm → Call World String
  pub remove_sync_folder : String → Call World Unit
  pub set_folder_enabled : String → Bool → Call World Unit
  pub sign_in : Call World Unit
  pub sign_out : Call World Unit
  pub list_drive_folders : String → Call World (List (String × String))

abbrev pub of_color_scheme : Result String ℕ → Result String Response
of_color_scheme (ok n) = ok (dark_mode_response (n == 1))
of_color_scheme (err e) = err e

-- `matches!`
abbrev pub is_refresh : Request → Bool
is_refresh refresh_request = true
is_refresh _ = false

abbrev pub is_dark_mode : Request → Bool
is_dark_mode dark_mode_request = true
is_dark_mode _ = false

abbrev pub is_browsing : Request → Bool
is_browsing (list_drive_folders_request parent) = true
is_browsing _ = false

-- The deadline that `execute` sets.
unfoldable pub deadline_of : Request → ℕ
deadline_of request = if is_browsing request then browse_timeout else control_timeout

module _ (B : Bus) where
  abbrev pub done_after : {A : Type 0} → Call B.World A → Future B.World Response
  done_after c = then_await (await c) λ a. done_with (ok done_response)

  -- The arms of `match request`. To the two of `unreachable!` no request of `execute` comes.
  unfoldable pub call_method : Request → Future B.World Response
  unfolding await done_with then_await
  call_method (add_folder_request form) = done_after (B.add_sync_folder form)
  call_method (remove_folder_request id) = done_after (B.remove_sync_folder id)
  call_method (set_folder_enabled_request id enabled) = done_after (B.set_folder_enabled id enabled)
  call_method sign_in_request = done_after B.sign_in
  call_method sign_out_request = done_after B.sign_out
  call_method (list_drive_folders_request parent) =
      then_await (await (B.list_drive_folders parent))
        λ rows. done_with (ok (drive_folders_response rows))
  call_method refresh_request = done_with (err "unreachable")
  call_method dark_mode_request = done_with (err "unreachable")

  abbrev pub on_proxy : Request → Future B.World Response
  on_proxy request = then_await (await B.new_proxy) λ u. call_method request

  abbrev pub read_dark_mode : Future B.World Response
  read_dark_mode =
      then_await (await B.read_color_scheme)
        λ reply. done_with (of_color_scheme (B.color_scheme reply))

  -- `call` after the connection.
  unfoldable pub call_connected : Request → Future B.World Response
  unfolding await done_with then_await call_method
  call_connected request = if is_dark_mode request then read_dark_mode else on_proxy request

  unfoldable pub call : Request → ℕ → Future B.World Response
  unfolding await then_await call_connected
  call request deadline = then_await (await (B.connect deadline)) λ u. call_connected request

  abbrev Execution : Type 0
  Execution = Timed B.World → Result String Response × Timed B.World

  abbrev same_error : String → String
  same_error e = e

  -- The rows and the authentication have one deadline, and a failure of the second is part of the answer.
  unfoldable pub refresh_snapshot : ℕ → Execution
  unfolding await bounded_until
  refresh_snapshot deadline s =
      let end = s.now + deadline in
      and_then same_error (bounded_until end deadline (await (B.connect deadline)) s) λ u s.
        and_then same_error (bounded_until end deadline (await B.new_proxy) s) λ u s.
          and_then same_error (bounded_until end deadline (await B.list_sync_folders) s) λ rows s.
            let (authentication, s) = bounded_until end deadline (await B.is_authenticated) s in
            (ok (snapshot_response rows authentication), s)

  unfoldable pub execute_with_timeout : Request → ℕ → Execution
  unfolding bounded call refresh_snapshot
  execute_with_timeout request deadline s =
      if is_refresh request
      then refresh_snapshot deadline s
      else bounded deadline (call request deadline) s

  unfoldable pub execute : Request → Execution
  unfolding deadline_of execute_with_timeout
  execute request = execute_with_timeout request (deadline_of request)
