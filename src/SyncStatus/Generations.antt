-- ===== src/SyncStatus/Generations.antt =====
-- The generation of each folder's status in sync_status.rs.
use gd_client.Prelude.Keys.{compare_iff, nat_ord, string_ord}
use gd_client.Prelude.BTreeMap.{get, get-insert, get-modify, get-remove, same}
use gd_client.Prelude.{
  Bool, Option, Option-cases, [], arith, false, if◌then◌else◌, inl, inr, none, refl, some, true, ℕ,
  ◌≡◌,
}
use gd_client.SyncStatus.{
  Uuid, FolderStatus, StatusTracker, FolderRun, RunOp, active, active_op, clear_error,
  clear_error_op, drop_op, drop_run, finish, finish_op, run_op, run_update, start, stop,
}

abbrev pub generation_of : Option FolderStatus → Option ℕ
generation_of none = none
generation_of (some f) = some f.generation

abbrev pub generation_at : Uuid → StatusTracker → Option ℕ
generation_at id t = generation_of (get id t.state.folders)

abbrev KeepsGeneration : (FolderStatus → FolderStatus × Bool) → Type 0
KeepsGeneration f = (v : FolderStatus) → (f v).0.generation ≡ v.generation

generation_at-run_update :
    (run : FolderRun) (f : FolderStatus → FolderStatus × Bool) (t : StatusTracker) (j : Uuid)
    → KeepsGeneration f
    → generation_at j (run_update run f t) ≡ generation_at j t
unfolding run_update
generation_at-run_update run f t j keep = elim (Option-cases (get run.id t.state.folders)) [
  | inl e ↦ rw (e, run_update)
  | inr (v, e) ↦ ground (
    arith,
    keep v,
    get-modify j run.id (λ (w : FolderStatus). (f w).0) t.state.folders,
    compare_iff run.id j,
  )
]

pub generation_at-run_op :
    (run : FolderRun) (op : RunOp) (t : StatusTracker) (j : Uuid)
    → generation_at j (run_op run op t) ≡ generation_at j t
unfolding run_op active clear_error finish drop_run
generation_at-run_op run active_op t j = generation_at-run_update run _ t j (λ v. refl)
generation_at-run_op run (clear_error_op work) t j = generation_at-run_update run _ t j (λ v. refl)
generation_at-run_op run (finish_op work r) t j = generation_at-run_update run _ t j (λ v. refl)
generation_at-run_op run (drop_op true) t j = generation_at-run_update run _ t j (λ v. refl)
generation_at-run_op run (drop_op false) t j = generation_at-run_update run _ t j (λ v. refl)

pub generation_at-start :
    (id g : ℕ) (t : StatusTracker) (j : Uuid)
    → generation_at j (start id g t).0 ≡ (if same id j then some g else generation_at j t)
unfolding start
generation_at-start id g t j = ground (
  arith,
  get-insert j id (record { generation = g; syncing = true; errors = [] }) t.state.folders,
)

pub generation_at-stop :
    (id : ℕ) (t : StatusTracker) (j : Uuid)
    → generation_at j (stop id t) ≡ (if same id j then none else generation_at j t)
unfolding stop
generation_at-stop id t j = ground (arith, get-remove j id t.state.folders)
