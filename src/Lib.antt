-- ===== src/Lib.antt =====
-- A verification library of the Google Drive client: a daemon (crates/gdrived) that keeps local folders
-- in step with Google Drive, built on a sync engine (crates/gdrive-sync) and on shared types
-- (crates/gdrive-common), with a Qt user interface that talks to it over D-Bus (crates/gdrive-ui).
--
-- The parts, and where they are modelled:
--
-- Common: config.rs, paths.rs, paths and the errors of both crates. `AppConfig::load_from` and `save_to` are
--   `load_from` and `save_to` over a `ConfigStore`, which stands for the file system and TOML.
-- StateDb: crates/gdrive-sync/src/state_db.rs. A table is the list of its rows, a method the meaning
--   of its SQL statement; whether SQLite runs a statement is a list of outcomes in the state. Refinement
--   is the abstract view of it, two functions.
-- SyncStatus: crates/gdrive-sync/src/sync_status.rs. `StatusTracker` and `FolderRun` with one
--   function for each method, and `tracker_op` for everything that may happen, in any order.
-- Drive: auth.rs and drive_client.rs of crates/gdrive-sync. Auth has the token cache and the refresh,
--   Authorize the interactive sign-in, Redirect how its code is read, Tokens the session that all
--   requests share, Requests one request with its retry, Query the search literals, Paging the loop over
--   pages, Client the endpoints.
-- Engine: crates/gdrive-sync/src/engine.rs. Workers has `SyncEngine` with `start_folder` and
--   `stop_folder`, and the workers that they spawn and abort. What a worker does is in the others: Site
--   is where it runs, Pull has `initial_pull`, Local `handle_local_change`, Poll `poll_remote_changes`
--   and Folder `run_folder`; Watcher is local_watcher.rs and Ownership is ownership.rs. Life puts a worker
--   on the Drive client.
-- Service: crates/gdrived/src/dbus_service.rs. `ServiceState` holds the fields of the source's type and
--   of `GDriveService`; Service has the methods on folders, Service/SignIns those of sign-in and
--   sign-out, Service/Browse the listing of Drive folders, and Service/Forwarding `forward_status`.
-- Ui: Requests is `PendingRequest`, StatusSession the loop of `sync_status_session` and Watch the loops
--   that connect again, of crates/gdrive-ui/src/dbus_client.rs. Of crates/gdrive-ui/src/cxxqt_object.rs, Summary is
--   `summarize_sync_status`, Window the state of `SyncManager` with `dispatch`, Actions its methods and
--   Completions what its requests do when they are answered; `ui_op` is all that may happen. LocalFolders
--   is `create_local_folder`. Futures and Bus are `execute` and what it waits for, on a clock; Committed
--   puts the service on the bus.
-- Daemon: crates/gdrived/src/main.rs until the service is ready.
-- Effects: actions of a state that may fail, and what is known after them. Prelude: shared names.
--
-- The engine starts a worker for each folder. A worker reports to the tracker through its run, reads
-- and writes the state database, and calls Drive with the session that sign-in and sign-out replace.
-- The service owns the configuration and the sign-in task, and tells the engine what to run.
--
-- What runs at the same time is a sequence of steps: a method that holds a lock is one step. A task
-- that waits gives the others a turn: what they do meanwhile is an argument (`Waits`, `Internet`) or
-- the history of operations (`tracker_op`, `engine_op`, `service_op`, `ui_op`,
-- `forward_op`). A worker is modelled
-- alone: the rows of its folder and its status are its own, and what others do to Drive and to the disk
-- is in what `Remote` and `Host` answer. The page loops run on fuel, and any fuel of at least the number
-- of pages is enough; the initial pull runs on fuel for the depth of the folders. A `u64` counter wraps
-- at 2^64, and what holds only before that says so. Times are numbers of seconds that are not negative;
-- the clock of a request is in milliseconds in Ui/Futures; a call there may take any time, or for ever,
-- and what it has done when it is given up is its own.
--
-- File systems, TOML, JSON, SQLite, `reqwest`, `oauth2`, `directories` and `zbus` are parameters; the laws
-- asked of them are in the records named `IsLawful`. Not modelled: the native folder dialog of the
-- user interface, the daemon's log of events and its shutdown, and the user interface's `main.rs`.
pub mod Prelude
pub mod Common
pub mod Effects
pub mod StateDb
pub mod SyncStatus
pub mod Drive
pub mod Engine
pub mod Service
pub mod Daemon
pub mod Ui
