-- ===== src/SyncStatus.antt =====
-- crates/gdrive-sync/src/sync_status.rs: what each folder's worker reports, and the snapshot that
-- the D-Bus service hands out (crates/gdrive-common/src/dbus_api.rs). A `Uuid` is its 128-bit value,
-- whose order is the order of the map's keys. The lock makes each operation one step.
pub mod Revision
pub mod Obsolete
pub mod Effects
pub mod Generations
mod Tests
use gd_client.Prelude.{
  ℕ, String, ◌<>◌, Bool, true, false, not, ◌||◌, Option, none, some, List, [], ◌∷◌, map, Result, ok,
  err, ◌==◌, str_eq, is_some, next_u64, if◌then◌else◌,
}
use gd_client.Prelude.Keys.{nat_ord, string_ord}
use gd_client.Prelude.BTreeMap.{BTreeMap, get, insert, remove, modify}

abbrev pub Uuid : Type 0
Uuid = ℕ

pub record FolderStatus : Type 0 where
  pub generation : ℕ
  pub syncing : Bool
  pub errors : BTreeMap String String

pub record State : Type 0 where
  pub revision : ℕ
  pub folders : BTreeMap Uuid FolderStatus

-- `changes` is the value in the watch channel.
pub record StatusTracker : Type 0 where
  pub state : State
  pub changes : ℕ

pub record FolderRun : Type 0 where
  pub id : Uuid
  pub generation : ℕ

-- `StatusTracker::default`
abbrev pub new_tracker : StatusTracker
new_tracker = record { state = record { revision = 0; folders = [] }; changes = 0 }

-- `StatusTracker::update`: the closure returns the new state and whether to publish it.
unfoldable pub update : (State → State × Bool) → StatusTracker → StatusTracker
update f t =
    let (s, changed) = f t.state in
    if changed
    then record {
      state = record s { revision = next_u64 s.revision };
      changes = next_u64 s.revision;
    }
    else record t { state = s }

unfoldable pub start : Uuid → ℕ → StatusTracker → StatusTracker × FolderRun
unfolding update
start id generation t = (
  update
      (λ state. (
        record state {
          folders =
              insert id (record { generation = generation; syncing = true; errors = [] })
                state.folders;
        },
        true,
      ))
      t,
  record { id = id; generation = generation },
)

unfoldable pub stop : Uuid → StatusTracker → StatusTracker
unfolding update
stop id =
    update (λ state.
      (record state { folders = remove id state.folders }, is_some (get id state.folders)))

-- `FolderRun::update`: nothing happens once another run, or none, owns the folder.
unfoldable pub run_update :
    FolderRun → (FolderStatus → FolderStatus × Bool) → StatusTracker → StatusTracker
unfolding update
run_update run f = update λ state. elim (get run.id state.folders) [
  | none ↦ (state, false)
  | some folder ↦
      if folder.generation == run.generation
      then (record state { folders = modify run.id (λ v. (f v).0) state.folders }, (f folder).1)
      else (state, false)
]

abbrev pub active_folder : FolderStatus → FolderStatus × Bool
active_folder folder = (record folder { syncing = true }, not folder.syncing)

abbrev pub clear_error_folder : String → FolderStatus → FolderStatus × Bool
clear_error_folder work folder =
    (record folder { errors = remove work folder.errors }, is_some (get work folder.errors))

-- The new errors of a folder, and whether they differ.
abbrev pub finish_errors :
    String → Result String Unit → BTreeMap String String → BTreeMap String String × Bool
finish_errors work (ok _) errors = (remove work errors, is_some (get work errors))
finish_errors work (err error) errors = elim (get work errors) [
  | none ↦ (insert work error errors, true)
  | some old ↦ if str_eq old error then (errors, false) else (insert work error errors, true)
]

abbrev finish_folder : String → Result String Unit → FolderStatus → FolderStatus × Bool
finish_folder work result folder =
    let (errors, error_changed) = finish_errors work result folder.errors in
    (record folder { syncing = false; errors = errors }, folder.syncing || error_changed)

abbrev idle_folder : FolderStatus → FolderStatus × Bool
idle_folder folder = (record folder { syncing = false }, folder.syncing)

unfoldable pub active : FolderRun → StatusTracker → StatusTracker
unfolding run_update
active run = run_update run active_folder

unfoldable pub clear_error : FolderRun → String → StatusTracker → StatusTracker
unfolding run_update
clear_error run work = run_update run (clear_error_folder work)

unfoldable pub finish : FolderRun → String → Result String Unit → StatusTracker → StatusTracker
unfolding run_update
finish run work result = run_update run (finish_folder work result)

-- `Drop for FolderRun`; the flag is `std::thread::panicking()`.
unfoldable pub drop_run : FolderRun → Bool → StatusTracker → StatusTracker
unfolding finish run_update
drop_run run true = finish run "worker" (err "sync task panicked; restart the folder")
drop_run run false = run_update run idle_folder

-- `dbus_api::FolderSyncStatus` and `dbus_api::SyncStatus`
pub record FolderSyncStatus : Type 0 where
  pub folder_id : String
  pub syncing : Bool
  pub errors : List String

pub record SyncStatus : Type 0 where
  pub revision : ℕ
  pub folders : List FolderSyncStatus

abbrev pub error_line : String × String → String
error_line (work, error) = work <> ": " <> error

-- `Uuid::to_string` is a parameter.
module _ (uuid_to_string : Uuid → String) where
  abbrev pub folder_sync_status : Uuid × FolderStatus → FolderSyncStatus
  folder_sync_status (id, folder) = record {
    folder_id = uuid_to_string id;
    syncing = folder.syncing;
    errors = map error_line folder.errors;
  }

  unfoldable pub snapshot : StatusTracker → SyncStatus
  snapshot t = record {
    revision = t.state.revision;
    folders = map folder_sync_status t.state.folders;
  }

-- What a worker may do through its run, as data.
pub data RunOp : Type 0 where
  active_op : RunOp
  clear_error_op : String → RunOp
  finish_op : String → Result String Unit → RunOp
  drop_op : Bool → RunOp

unfoldable pub run_op : FolderRun → RunOp → StatusTracker → StatusTracker
unfolding active clear_error finish drop_run
run_op run active_op = active run
run_op run (clear_error_op work) = clear_error run work
run_op run (finish_op work result) = finish run work result
run_op run (drop_op panicking) = drop_run run panicking

-- Every way the tracker changes: a worker starts or is stopped, or acts through its run.
pub data TrackerOp : Type 0 where
  start_op : Uuid → ℕ → TrackerOp
  stop_op : Uuid → TrackerOp
  worker_op : FolderRun → RunOp → TrackerOp

unfoldable pub tracker_op : TrackerOp → StatusTracker → StatusTracker
unfolding start stop run_op
tracker_op (start_op id generation) t = (start id generation t).0
tracker_op (stop_op id) t = stop id t
tracker_op (worker_op run op) t = run_op run op t

unfoldable pub tracker_ops : List TrackerOp → StatusTracker → StatusTracker
tracker_ops [] t = t
tracker_ops (op ∷ ops) t = tracker_ops ops (tracker_op op t)
