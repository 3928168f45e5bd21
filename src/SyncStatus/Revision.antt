-- ===== src/SyncStatus/Revision.antt =====
-- When the revision of sync_status.rs moves: a client that has seen a revision may skip it.
use gd_client.Prelude.{
  ℕ, ◌+◌, ◌≡◌, ◌≢◌, refl, ◌⊎◌, inl, inr, Bool, true, false, String, arith, Option-cases, ok, err,
  u64_mod, next_u64, Result, List, [], length, ◌<◌, ◌≤◌, ◌∷◌, subst, sym, ap,
}
use gd_client.Prelude.Keys.{nat_ord, string_ord}
use gd_client.Prelude.BTreeMap.{BTreeMap, get, modify_same, remove_absent}
use gd_client.SyncStatus.{
  FolderStatus, StatusTracker, FolderRun, RunOp, active_op, clear_error_op, finish_op, drop_op,
  run_op, run_update, update, active, clear_error, finish, drop_run, start, stop, active_folder,
  clear_error_folder, finish_folder, idle_folder, finish_errors, tracker_op, tracker_ops, TrackerOp,
  start_op, stop_op, worker_op,
}

-- Nothing happened, or the revision moved on and its new value was published.
abbrev pub Published : StatusTracker → StatusTracker → Type 0
Published t u =
    (u ≡ t) ⊎ ((u.state.revision ≡ next_u64 t.state.revision) × (u.changes ≡ u.state.revision))

pub next_u64-ne : (n : ℕ) → next_u64 n ≢ n
next_u64-ne n h = omega arith

-- A closure that reports no change makes none.
abbrev Honest : (FolderStatus → FolderStatus × Bool) → Type 0
Honest f = (v : FolderStatus) → (f v).1 ≡ false → (f v).0 ≡ v

run_update-Published :
    (run : FolderRun) (f : FolderStatus → FolderStatus × Bool) (t : StatusTracker)
    → Honest f
    → Published t (run_update run f t)
unfolding run_update
run_update-Published run f t honest = elim (Option-cases (get run.id t.state.folders)) [
  | inl e ↦ rw (e, run_update) (inl refl)
  | inr (v, e) ↦
      ground
        (arith, honest v, modify_same run.id (λ (w : FolderStatus). (f w).0) v t.state.folders e)
]

finish_errors-quiet :
    (work : String) (r : _) (errors : BTreeMap String String)
    → (finish_errors work r errors).1 ≡ false
    → (finish_errors work r errors).0 ≡ errors
finish_errors-quiet work (ok u) errors h = ground (arith, remove_absent work errors)
finish_errors-quiet work (err e) errors h = ground arith

finish-Published :
    (run : FolderRun) (work : String) (r : Result String Unit) (t : StatusTracker)
    → Published t (finish run work r t)
unfolding finish
finish-Published run work r t =
    run_update-Published run (finish_folder work r) t
      λ v h. ground (arith, finish_errors-quiet work r v.errors)

run_op-Published :
    (run : FolderRun) (op : RunOp) (t : StatusTracker) → Published t (run_op run op t)
unfolding run_op active clear_error drop_run
run_op-Published run active_op t = run_update-Published run active_folder t λ v h. ground arith
run_op-Published run (clear_error_op work) t =
    run_update-Published run (clear_error_folder work) t
      λ v h. ground (arith, remove_absent work v.errors)
run_op-Published run (finish_op work r) t = finish-Published run work r t
run_op-Published run (drop_op true) t =
    finish-Published run "worker" (err "sync task panicked; restart the folder") t
run_op-Published run (drop_op false) t = run_update-Published run idle_folder t λ v h. ground arith

-- Whatever happens to the tracker, either nothing of it changes or its revision moves to the next
-- one, modulo 2^64, and that is the value published.
pub tracker_op-Published : (op : TrackerOp) (t : StatusTracker) → Published t (tracker_op op t)
unfolding tracker_op start stop update
tracker_op-Published (start_op id g) t = inr (refl, refl)
tracker_op-Published (stop_op id) t = ground (arith, remove_absent id t.state.folders)
tracker_op-Published (worker_op run op) t = run_op-Published run op t

-- `u` is no older than `t`, and is `t` if its revision is the same.
abbrev pub Follows : StatusTracker → StatusTracker → Type 0
Follows t u = (t.state.revision ≤ u.state.revision) × (u.state.revision ≡ t.state.revision → u ≡ t)

-- Over any history too short for the revision to wrap, the revision never falls, and if it is what
-- it was then so is the whole tracker.
pub tracker_ops-Follows :
    (ops : List TrackerOp) (t : StatusTracker)
    → t.state.revision + length ops < u64_mod
    → Follows t (tracker_ops ops t)
unfolding tracker_ops
tracker_ops-Follows [] t h = (omega arith, λ _. refl)
tracker_ops-Follows (op ∷ ops) t h = elim (tracker_op-Published op t) [
  | inl e ↦
      subst (λ u. Follows t (tracker_ops ops u)) (sym e) (tracker_ops-Follows ops t (omega arith))
  | inr (e, _) ↦
      let ih = tracker_ops-Follows ops (tracker_op op t) (omega arith) in
      (omega arith, λ same. absurd (omega arith))
]

pub tracker_ops-bounded :
    (ops : List TrackerOp) (t : StatusTracker)
    → t.state.revision + length ops < u64_mod
    → (tracker_ops ops t).state.revision ≤ t.state.revision + length ops
unfolding tracker_ops
tracker_ops-bounded [] t h = omega arith
tracker_ops-bounded (op ∷ ops) t h = elim (tracker_op-Published op t) [
  | inl e ↦
      let same_revision = ap (λ (u : StatusTracker). u.state.revision) e in
      let ih = tracker_ops-bounded ops (tracker_op op t) (omega arith) in omega arith
  | inr (e, _) ↦ let ih = tracker_ops-bounded ops (tracker_op op t) (omega arith) in omega arith
]
