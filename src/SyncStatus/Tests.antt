-- ===== src/SyncStatus/Tests.antt =====
-- sync_status.rs on a folder that is started, fails, and is started again.
use gd_client.Prelude.Keys.{nat_ord, string_ord}
use gd_client.Prelude.{
  List, [], ◌∷◌, ok, err, refl, some, arith, ◌≡◌, String, false, if◌then◌else◌, true, ◌&&◌, ap,
}
use gd_client.Prelude.BTreeMap.{get, same}
use gd_client.SyncStatus.{
  StatusTracker, FolderRun, new_tracker, start, TrackerOp, start_op, worker_op, finish_op,
  active_op, drop_op, tracker_ops, FolderStatus, finish, run_op, tracker_op,
}
use gd_client.SyncStatus.Revision.{Follows, tracker_ops-Follows}
use gd_client.SyncStatus.Obsolete.{IsCurrent, run_op-not_current}
use gd_client.SyncStatus.Generations.{generation_at-start, generation_of}
use gd_client.SyncStatus.Effects.{Finished, finish-Finished}

abbrev first_run : FolderRun
first_run = record { id = 7; generation = 0 }

abbrev history : List TrackerOp
history =
    start_op 7 0
    ∷ worker_op first_run (finish_op "upload a" (err "denied"))
    ∷ worker_op first_run active_op
    ∷ []

abbrev restart : List TrackerOp
restart = start_op 7 0 ∷ start_op 7 1 ∷ worker_op first_run (drop_op true) ∷ []

abbrev failed : StatusTracker
failed = tracker_ops history new_tracker

abbrev restarted : StatusTracker
restarted = (start 7 1 failed).0

abbrev status : FolderStatus
status = record { generation = 0; syncing = true; errors = ("upload a", "denied") ∷ [] }

history_revision : failed.state.revision ≡ 3
unfolding tracker_ops tracker_op get gd_client.Prelude.BTreeMap.insert
    gd_client.Prelude.BTreeMap.modify
history_revision = refl

failed_status : get 7 failed.state.folders ≡ some status
unfolding tracker_ops get tracker_op gd_client.Prelude.BTreeMap.insert
    gd_client.Prelude.BTreeMap.modify
failed_status = refl

restart_revision : (tracker_ops restart new_tracker).state.revision ≡ 2
unfolding tracker_ops tracker_op get gd_client.Prelude.BTreeMap.insert
restart_revision = refl

tracker_ops-Follows_example : Follows new_tracker (tracker_ops history new_tracker)
tracker_ops-Follows_example = tracker_ops-Follows history new_tracker (omega arith)

first_run_obsolete : ¬ IsCurrent first_run restarted
first_run_obsolete (f, e, g) =
    let started = generation_at-start 7 1 failed 7 in ground (arith, ap generation_of e)

run_op-not_current_example : run_op first_run (drop_op true) restarted ≡ restarted
run_op-not_current_example =
    run_op-not_current first_run (drop_op true) restarted first_run_obsolete

finish-Finished_example :
    (u : FolderStatus) × (get 7 (finish first_run "upload b" (err "late") failed).state.folders
      ≡ some u)
    × Finished status "upload b" (err "late") u
finish-Finished_example =
    finish-Finished first_run "upload b" (err "late") failed status failed_status refl
