-- ===== src/Engine/Workers/Tests.antt =====
-- A folder that is started twice, and its first worker, which is aborted.
use gd_client.Prelude.Keys.{nat_ord, string_ord}
use gd_client.Prelude.BTreeMap.{BTreeMap, get, insert, remove}
use gd_client.Prelude.{ℕ, List, [], ◌∷◌, refl, some, none, arith, ◌≡◌, err, false, true}
use gd_client.SyncStatus.{run_op, finish_op, SyncStatus, start, start_op}
use gd_client.Common.Config.{SyncFolder, AppConfig}
use gd_client.Engine.Workers.{
  Worker, EngineOp, find_worker, running_folders, poll_interval, new_engine, engine_op, exit_op,
}
use gd_client.Engine.Workers.Invariant.{Invariant}
use gd_client.Engine.Workers.History.{engine_after, engine_after-Invariant}
use gd_client.Engine.Workers.Safety.{one_worker_per_folder, aborted_worker_is_silent}

abbrev folder : ℕ → SyncFolder
folder id = record {
  id = id;
  display_name = "documents";
  drive_folder_id = none;
  drive_folder_path = none;
  local_path = "/" ∷ "home" ∷ "docs" ∷ [];
  owner_user = "me";
  owner_group = "me";
  enabled = true;
}

abbrev config : AppConfig
config = record { sync_folders = folder 7 ∷ []; poll_interval_secs = 3 }

abbrev history : List EngineOp
history =
    EngineOp.start_op (folder 7)
    ∷ EngineOp.start_op (folder 8)
    ∷ EngineOp.start_op (folder 7)
    ∷ EngineOp.exit_op 1 false
    ∷ []

abbrev first_worker : Worker
first_worker = record {
  handle = 0;
  run = record { id = 7; generation = 0 };
  aborted = true;
  finished = false;
}

abbrev second_worker : Worker
second_worker = record {
  handle = 2;
  run = record { id = 7; generation = 2 };
  aborted = false;
  finished = false;
}

shortest_interval : poll_interval (new_engine config) ≡ 5
unfolding poll_interval
shortest_interval = refl

running : running_folders (engine_after config history) ≡ 7 ∷ []
unfolding running_folders gd_client.Engine.Workers.engine_op gd_client.Prelude.BTreeMap.insert
    gd_client.Prelude.BTreeMap.remove gd_client.Prelude.BTreeMap.get
running = refl

found_first : find_worker 0 (engine_after config history).workers ≡ some first_worker
unfolding find_worker gd_client.Engine.Workers.engine_op gd_client.Prelude.BTreeMap.get
    gd_client.Prelude.BTreeMap.insert gd_client.Prelude.BTreeMap.remove gd_client.SyncStatus.start
found_first = refl

found_second : find_worker 2 (engine_after config history).workers ≡ some second_worker
unfolding find_worker gd_client.Engine.Workers.engine_op gd_client.SyncStatus.start
found_second = refl

engine_after-Invariant_example : Invariant (engine_after config history)
engine_after-Invariant_example = engine_after-Invariant config history (omega arith)

abbrev live_handle : ℕ
live_handle = 2

one_worker_per_folder_example : live_handle ≡ second_worker.handle
one_worker_per_folder_example =
    one_worker_per_folder config history live_handle second_worker.handle second_worker
      second_worker (omega arith) found_second found_second refl refl refl

aborted_worker_is_silent_example :
    run_op first_worker.run
      (finish_op "upload a" (err "denied"))
      (engine_after config history).status
    ≡ (engine_after config history).status
aborted_worker_is_silent_example =
    aborted_worker_is_silent config history 0 first_worker (finish_op "upload a" (err "denied"))
      (omega arith) found_first refl
