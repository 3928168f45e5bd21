-- ===== src/SyncStatus/Obsolete.antt =====
-- A run of sync_status.rs acts on its own folder only, and only while that folder is still its own.
use gd_client.Prelude.Keys.{nat_ord, string_ord}
use gd_client.Prelude.BTreeMap.{get}
use gd_client.Prelude.{Option-cases, arith, false, inl, inr, some, true, ◌≡◌, ◌≢◌, Bool}
use gd_client.SyncStatus.{
  FolderRun, FolderStatus, RunOp, StatusTracker, active, active_op, clear_error, clear_error_op,
  drop_op, drop_run, finish, finish_op, run_op, run_update,
}

-- The folder's status is the run's: it is there, under the run's generation.
abbrev pub IsCurrent : FolderRun → StatusTracker → Type 0
IsCurrent run t =
    (f : FolderStatus) × (get run.id t.state.folders ≡ some f) × (f.generation ≡ run.generation)

run_update-not_current :
    (run : FolderRun) (f : FolderStatus → FolderStatus × Bool) (t : StatusTracker)
    → ¬ IsCurrent run t
    → run_update run f t ≡ t
unfolding run_update
run_update-not_current run f t stale = elim (Option-cases (get run.id t.state.folders)) [
  | inl e ↦ rw (e, run_update)
  | inr (v, e) ↦ let other : v.generation ≢ run.generation = λ g. stale (v, e, g) in ground arith
]

-- A run whose folder was stopped, or started again under another generation, changes nothing of the
-- tracker, its revision and what it published included, whatever it does.
pub run_op-not_current :
    (run : FolderRun) (op : RunOp) (t : StatusTracker) → ¬ IsCurrent run t → run_op run op t ≡ t
unfolding run_op active clear_error finish drop_run
run_op-not_current run active_op t h = run_update-not_current run _ t h
run_op-not_current run (clear_error_op work) t h = run_update-not_current run _ t h
run_op-not_current run (finish_op work r) t h = run_update-not_current run _ t h
run_op-not_current run (drop_op true) t h = run_update-not_current run _ t h
run_op-not_current run (drop_op false) t h = run_update-not_current run _ t h
