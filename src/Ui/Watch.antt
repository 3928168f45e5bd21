-- ===== src/Ui/Watch.antt =====
-- The two loops of crates/gdrive-ui/src/dbus_client.rs that keep a subscription to the daemon,
-- `watch_sync_status` and `watch_authentication`, with the window that their events come to. What a
-- session meets is given in order: the results of the steps that connect it, and then what it waits for;
-- a session that has met no error yet is still running. The pauses between sessions take time only.
pub mod Displays
use gd_client.Prelude.{
  String, Bool, List, [], ◌∷◌, Option, none, some, Result, ok, err, if◌then◌else◌,
}
use gd_client.SyncStatus.{SyncStatus}
use gd_client.Ui.StatusSession.{Session, new_session, is_new, turn}
use gd_client.Ui.Window.{Window}
use gd_client.Ui.Actions.{
  SyncStatusEvent, snapshot_event, unavailable_event, on_sync_status, AuthenticationEvent, ready,
  changed, on_authentication,
}

-- The first step that fails.
abbrev pub first_error : List (Result String Unit) → Option String
first_error [] = none
first_error (ok u ∷ steps) = first_error steps
first_error (err e ∷ steps) = some e

-- A turn of the loop with the snapshot that the daemon answered.
unfoldable pub pass_on : SyncStatus → Session × Window → Session × Window
unfolding turn on_sync_status
pass_on answer (s, w) = (
  turn answer s,
  if is_new s.revision answer.revision then on_sync_status (snapshot_event answer) w else w,
)

-- The loop: the answers to `sync_status`, and the error that ends it, also one of its signals or the change
-- of the daemon's owner.
unfoldable pub session_loop :
    List (Result String SyncStatus) → Session × Window → Option String × Window
unfolding pass_on
session_loop [] world = (none, world.1)
session_loop (ok answer ∷ answers) world = session_loop answers (pass_on answer world)
session_loop (err e ∷ answers) world = (some e, world.1)

-- What a session meets.
pub record StatusRun : Type 0 where
  pub steps : List (Result String Unit)
  pub answers : List (Result String SyncStatus)

unfoldable pub sync_status_session : StatusRun → Window → Option String × Window
unfolding session_loop
sync_status_session run w = elim (first_error run.steps) [
  | some e ↦ (some e, w)
  | none ↦ session_loop run.answers (new_session, w)
]

abbrev pub notify_unavailable : Option String × Window → Window
notify_unavailable (none, w) = w
notify_unavailable (some e, w) = on_sync_status (unavailable_event e) w

-- `watch_sync_status`
unfoldable pub watch_sync_status : List StatusRun → Window → Window
unfolding sync_status_session on_sync_status
watch_sync_status [] w = w
watch_sync_status (run ∷ runs) w =
    watch_sync_status runs (notify_unavailable (sync_status_session run w))

-- What an authentication session waits for: a signal, one that is broken or the end of the signals, or a
-- change of the daemon's owner.
pub data Signalled : Type 0 where
  authentication_signal : Bool → Signalled
  broken_signal : String → Signalled
  owner_changed : Signalled

abbrev pub authentication_loop : List Signalled → Window → Window
authentication_loop [] w = w
authentication_loop (authentication_signal b ∷ signals) w =
    authentication_loop signals (on_authentication (changed b) w)
authentication_loop (broken_signal e ∷ signals) w = w
authentication_loop (owner_changed ∷ signals) w = w

pub record AuthenticationRun : Type 0 where
  pub steps : List (Result String Unit)
  pub signals : List Signalled

unfoldable pub authentication_session : AuthenticationRun → Window → Window
unfolding on_authentication
authentication_session run w = elim (first_error run.steps) [
  | some e ↦ w
  | none ↦ authentication_loop run.signals (on_authentication ready w)
]

-- `watch_authentication`, which connects again after an error and after a change of owner alike.
unfoldable pub watch_authentication : List AuthenticationRun → Window → Window
unfolding authentication_session
watch_authentication [] w = w
watch_authentication (run ∷ runs) w = watch_authentication runs (authentication_session run w)
