-- ===== src/SyncStatus/Effects.antt =====
-- What the current run of a folder does to its status (sync_status.rs).
use gd_client.Prelude.Keys.{compare_string_iff, nat_ord, string_ord}
use gd_client.Prelude.BTreeMap.{get-insert, get-modify, get-remove, same, BTreeMap, get}
use gd_client.Prelude.{
  Option-cases, arith, eq_iff, false, if◌then◌else◌, inl, inr, refl, true, ◌&&◌, ◌≡◌, Bool, Option,
  Result, String, err, none, ok, some,
}
use gd_client.SyncStatus.{
  FolderRun, FolderStatus, StatusTracker, drop_run, finish, finish_errors, finish_folder,
  idle_folder, run_update,
}

-- What is left of a piece of work: its error, if it failed.
abbrev pub outcome : Result String Unit → Option String
outcome (ok _) = none
outcome (err e) = some e

get-finish_errors :
    (work w : String) (r : Result String Unit) (errors : BTreeMap String String)
    → get w (finish_errors work r errors).0 ≡ (if same work w then outcome r else get w errors)
get-finish_errors work w (ok u) errors = get-remove w work errors
get-finish_errors work w (err e) errors = elim (Option-cases (get work errors)) [
  | inl none_yet ↦ ground (arith, get-insert w work e errors)
  | inr (old, found) ↦
      ground (arith, get-insert w work e errors, eq_iff old e, compare_string_iff work w)
]

pub run_update_current :
    (run : FolderRun) (f : FolderStatus → FolderStatus × Bool) (t : StatusTracker)
    (v : FolderStatus)
    → get run.id t.state.folders ≡ some v
    → v.generation ≡ run.generation
    → get run.id (run_update run f t).state.folders ≡ some (f v).0
unfolding run_update
run_update_current run f t v e g =
    ground (arith, get-modify run.id run.id (λ (w : FolderStatus). (f w).0) t.state.folders)

-- `v` after the run has finished `work` with `r`: idle, and with the errors of all other work.
pub record Finished (v : FolderStatus) (work : String) (r : Result String Unit) (u : FolderStatus)
    : Type 0 where
  pub generation : u.generation ≡ v.generation
  pub idle : u.syncing ≡ false
  pub errors : (w : String) → get w u.errors ≡ (if same work w then outcome r else get w v.errors)

-- When the run that owns a folder finishes a piece of work, the folder is idle, its generation stays,
-- the work's error is the one reported, or gone after success, and the errors of all other work stay.
pub finish-Finished :
    (run : FolderRun) (work : String) (r : Result String Unit) (t : StatusTracker)
    (v : FolderStatus)
    → get run.id t.state.folders ≡ some v
    → v.generation ≡ run.generation
    → (u : FolderStatus) × (get run.id (finish run work r t).state.folders ≡ some u)
      × Finished v work r u
unfolding finish
finish-Finished run work r t v e g = (
  (finish_folder work r v).0,
  run_update_current run (finish_folder work r) t v e g,
  record { generation = refl; idle = refl; errors = λ w. get-finish_errors work w r v.errors },
)

-- When the run that owns a folder is dropped, the folder is idle; its errors stay, but for the one of
-- a panic, which is reported.
drop_run-idle :
    (run : FolderRun) (panicking : Bool) (t : StatusTracker) (v : FolderStatus)
    → get run.id t.state.folders ≡ some v
    → v.generation ≡ run.generation
    → (u : FolderStatus) × (get run.id (drop_run run panicking t).state.folders ≡ some u)
      × (u.syncing ≡ false)
      × ((w : String)
          → get w u.errors ≡ (
              if panicking && same "worker" w
              then some "sync task panicked; restart the folder"
              else get w v.errors))
unfolding drop_run
drop_run-idle run true t v e g =
    let (u, found, f) =
      finish-Finished run "worker" (err "sync task panicked; restart the folder") t v e g in
    (u, found, f.idle, f.errors)
drop_run-idle run false t v e g =
    ((idle_folder v).0, run_update_current run idle_folder t v e g, refl, λ w. refl)
