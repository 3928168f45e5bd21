-- ===== src/Engine/Workers.antt =====
-- `SyncEngine` of crates/gdrive-sync/src/engine.rs: which worker synchronises which
-- folder. A `JoinHandle` is the number of its task in the order of spawning. What a worker does to
-- the tracker happens whenever it runs: an aborted one may go on until it next waits, and drops its run
-- then. What it does to files is in the other modules of the engine.
pub mod Invariant
pub mod History
pub mod Safety
pub mod Running
mod Tests
use gd_client.Prelude.Keys.{nat_ord, string_ord}
use gd_client.Prelude.BTreeMap.{BTreeMap, get, insert, remove}
use gd_client.Prelude.{
  ◌==◌, Bool, List, Option, [], false, if◌then◌else◌, map, max, next_u64, none, some, true, ℕ, ◌+◌,
  ◌∷◌,
}
use gd_client.Common.Config.{SyncFolder, AppConfig}
use gd_client.SyncStatus
use gd_client.SyncStatus.{
  Uuid, StatusTracker, FolderRun, RunOp, run_op, drop_run, new_tracker, SyncStatus, drop_op, start,
  stop,
}

pub record Worker : Type 0 where
  pub handle : ℕ
  pub run : FolderRun
  pub aborted : Bool
  pub finished : Bool

pub record SyncEngine : Type 0 where
  pub poll_interval_secs : ℕ
  pub tasks : BTreeMap Uuid ℕ
  pub status : StatusTracker
  pub generation : ℕ
  pub spawned : ℕ
  pub workers : List Worker

-- `SyncEngine::new`, as far as the workers go.
abbrev pub new_engine : AppConfig → SyncEngine
new_engine config = record {
  poll_interval_secs = config.poll_interval_secs;
  tasks = [];
  status = new_tracker;
  generation = 0;
  spawned = 0;
  workers = [];
}

-- `Duration::from_secs(self.poll_interval_secs.max(5))`
unfoldable pub poll_interval : SyncEngine → ℕ
poll_interval e = max e.poll_interval_secs 5

abbrev pub abort_worker : ℕ → Worker → Worker
abort_worker handle w = if w.handle == handle then record w { aborted = true } else w

-- `JoinHandle::abort` of the handle that was in the map, if one was.
abbrev pub abort : Option ℕ → List Worker → List Worker
abort none ws = ws
abort (some handle) ws = map (abort_worker handle) ws

unfoldable pub start_folder : SyncFolder → SyncEngine → SyncEngine
start_folder folder e =
    let (status, run) = SyncStatus.start folder.id e.generation e.status in
    record e {
      tasks = insert folder.id e.spawned (remove folder.id e.tasks);
      status = status;
      generation = next_u64 e.generation;
      spawned = e.spawned + 1;
      workers =
          record { handle = e.spawned; run = run; aborted = false; finished = false }
          ∷ abort (get folder.id e.tasks) e.workers;
    }

unfoldable pub stop_folder : Uuid → SyncEngine → SyncEngine
stop_folder id e = record e {
  tasks = remove id e.tasks;
  status = SyncStatus.stop id e.status;
  workers = abort (get id e.tasks) e.workers;
}

-- `task.is_finished()`: the task has returned, or was dropped after its abort.
unfoldable pub is_finished : ℕ → List Worker → Bool
is_finished handle [] = true
is_finished handle (w ∷ ws) = if w.handle == handle then w.finished else is_finished handle ws

abbrev running_of : List Worker → BTreeMap Uuid ℕ → List Uuid
running_of ws [] = []
running_of ws ((id, handle) ∷ tasks) =
    let rest = running_of ws tasks in if is_finished handle ws then rest else id ∷ rest

unfoldable pub running_folders : SyncEngine → List Uuid
unfolding is_finished
running_folders e = running_of e.workers e.tasks

unfoldable pub start_folders : List SyncFolder → SyncEngine → SyncEngine
unfolding start_folder
start_folders [] e = e
start_folders (f ∷ fs) e = start_folders fs (if f.enabled then start_folder f e else e)

-- `start_all`
unfoldable pub start_all : AppConfig → SyncEngine → SyncEngine
unfolding start_folders
start_all config e = start_folders config.sync_folders e

unfoldable pub find_worker : ℕ → List Worker → Option Worker
find_worker handle [] = none
find_worker handle (w ∷ ws) = if w.handle == handle then some w else find_worker handle ws

abbrev pub act : RunOp → Option Worker → StatusTracker → StatusTracker
act op none t = t
act op (some w) t = if w.finished then t else run_op w.run op t

abbrev pub finish_worker : ℕ → Worker → Worker
finish_worker handle w = if w.handle == handle then record w { finished = true } else w

-- What happens to the engine: calls from the service, and the workers' own steps in any order. An exit
-- drops the worker's run.
pub data EngineOp : Type 0 where
  start_op : SyncFolder → EngineOp
  stop_op : Uuid → EngineOp
  work_op : ℕ → RunOp → EngineOp
  exit_op : ℕ → Bool → EngineOp

unfoldable pub engine_op : EngineOp → SyncEngine → SyncEngine
unfolding start_folder stop_folder find_worker
engine_op (start_op folder) e = start_folder folder e
engine_op (stop_op id) e = stop_folder id e
engine_op (work_op handle op) e = record e {
  status = act op (find_worker handle e.workers) e.status;
}
engine_op (exit_op handle panicking) e = record e {
  status = act (SyncStatus.drop_op panicking) (find_worker handle e.workers) e.status;
  workers = map (finish_worker handle) e.workers;
}

abbrev pub engine_ops : List EngineOp → SyncEngine → SyncEngine
engine_ops [] e = e
engine_ops (op ∷ ops) e = engine_ops ops (engine_op op e)
