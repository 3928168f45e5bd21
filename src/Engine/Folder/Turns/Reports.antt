-- ===== src/Engine/Folder/Turns/Reports.antt =====
-- What the operations of a run of sync_status.rs, which engine.rs calls, leave of a folder's status.
use gd_client.Prelude.{
  arith, String, Bool, true, false, none, some, Result, ◌≡◌, ◌∙◌, ◌⊎◌, inl, ap, refl, if◌then◌else◌,
}
use gd_client.Prelude.Keys.{nat_ord, string_ord, compare_string_iff}
use gd_client.Prelude.BTreeMap.{BTreeMap, get, get-remove, same}
use gd_client.SyncStatus.{
  FolderRun, FolderStatus, StatusTracker, active, clear_error, finish, run_update, active_folder,
  clear_error_folder,
}
use gd_client.SyncStatus.Effects.{run_update_current, finish-Finished, outcome}

-- The folder's status is the run's, and `Q` of it.
abbrev pub Shows : FolderRun → (FolderStatus → Type 0) → StatusTracker → Type 0
Shows run Q t =
    (f : FolderStatus) × (get run.id t.state.folders ≡ some f)
    × (f.generation ≡ run.generation)
    × Q f

pub same_refl : (k : String) → same k k ≡ true
same_refl k = ground (arith, compare_string_iff k k)

module _ (run : FolderRun) where
  run_update-Shows :
      (Q Q' : FolderStatus → Type 0) (f : FolderStatus → FolderStatus × Bool) (t : StatusTracker)
      → ((v : FolderStatus) → (f v).0.generation ≡ v.generation)
      → ((v : FolderStatus) → Q v → Q' (f v).0)
      → Shows run Q t
      → Shows run Q' (run_update run f t)
  run_update-Shows Q Q' f t kept next (v, found, g, q) =
      ((f v).0, run_update_current run f t v found g, kept v ∙ g, next v q)

  module _ (key : String) (errors : BTreeMap String String) where
    -- The errors of all other work are these.
    abbrev pub Others : FolderStatus → Type 0
    Others f = (w : String) → same key w ≡ false → get w f.errors ≡ get w errors

    -- Idle, and the work's own error is the old one or gone.
    abbrev pub Quiet : FolderStatus → Type 0
    Quiet f =
        Others f
        × (f.syncing ≡ false)
        × ((get key f.errors ≡ none) ⊎ (get key f.errors ≡ get key errors))

    pub active-Others : (t : StatusTracker) → Shows run Others t → Shows run Others (active run t)
    unfolding active
    active-Others t h = run_update-Shows Others Others active_folder t (λ v. refl) (λ v q. q) h

    pub clear_error-Quiet :
        (t : StatusTracker) → Shows run Quiet t → Shows run Quiet (clear_error run key t)
    unfolding clear_error
    clear_error-Quiet t h =
        run_update-Shows Quiet Quiet (clear_error_folder key) t (λ v. refl) next h
      where
        next : (v : FolderStatus) → Quiet v → Quiet (clear_error_folder key v).0
        next v (others, idle, own) = (
          λ w ne.
              get-remove w key v.errors
              ∙ ap (λ b. if b then none else get w v.errors) ne
              ∙ others w ne,
          idle,
          inl (
              get-remove key key v.errors
              ∙ ap (λ b. if b then none else get key v.errors) (same_refl key)),
        )

    pub finish-Others :
        (r : Result String Unit) (t : StatusTracker)
        → Shows run Others t
        → Shows run
            (λ f. Others f × (f.syncing ≡ false) × (get key f.errors ≡ outcome r))
            (finish run key r t)
    finish-Others r t (v, found, g, others) =
        let (u, found', f) = finish-Finished run key r t v found g in
        (
          u,
          found',
          f.generation ∙ g,
          (
            λ w ne. f.errors w ∙ ap (λ b. if b then outcome r else get w v.errors) ne ∙ others w ne,
            f.idle,
            f.errors key ∙ ap (λ b. if b then outcome r else get key v.errors) (same_refl key),
          ),
        )
