-- ===== src/Ui/Summary.antt =====
-- `summarize_sync_status` of crates/gdrive-ui/src/cxxqt_object.rs, what the tray shows.
use gd_client.Prelude.{
  String, Bool, false, List, [], ◌∷◌, ◌++◌, map, ◌<>◌, ◌≡◌, ◌↔◌, arith, any, All, if◌then◌else◌,
  refl,
}
use gd_client.SyncStatus.{
  error_line, Uuid, FolderStatus, StatusTracker, FolderSyncStatus, SyncStatus, snapshot,
  folder_sync_status,
}

-- The states that the tray tells apart by name; `unavailable` and `starting` are set elsewhere.
pub data SyncState : Type 0 where
  error_state syncing_state idle_state : SyncState

abbrev named_error : String → String → String
named_error id error = id <> (": " <> error)

abbrev folder_errors : FolderSyncStatus → List String
folder_errors folder = map (named_error folder.folder_id) folder.errors

-- `flat_map`
abbrev all_errors : List FolderSyncStatus → List String
all_errors [] = []
all_errors (f ∷ fs) = folder_errors f ++ all_errors fs

abbrev join_lines : List String → String
join_lines [] = ""
join_lines (e ∷ []) = e
join_lines (e ∷ f ∷ es) = e <> ("\n" <> join_lines (f ∷ es))

abbrev is_syncing : FolderSyncStatus → Bool
is_syncing folder = folder.syncing

abbrev summary_of : List String → Bool → SyncState × String
summary_of (e ∷ es) syncing = (error_state, join_lines (e ∷ es))
summary_of [] syncing = (if syncing then syncing_state else idle_state, "")

unfoldable pub summarize_sync_status : SyncStatus → SyncState × String
summarize_sync_status s = summary_of (all_errors s.folders) (any is_syncing s.folders)

-- No folder is active or has an error.
abbrev pub IsQuiet : Uuid × FolderStatus → Type 0
IsQuiet (id, f) = (f.syncing ≡ false) × (f.errors ≡ [])

append-nil : (xs ys : List String) → xs ++ ys ≡ [] → (xs ≡ []) × (ys ≡ [])
append-nil [] ys e = (refl, e)
append-nil (x ∷ xs) ys e = ground arith

folder_errors-nil :
    (id : String) (errors : List (String × String))
    → map (named_error id) (map error_line errors) ≡ []
    → errors ≡ []
folder_errors-nil id [] e = refl
folder_errors-nil id (x ∷ xs) e = ground arith

summary_of-idle :
    (errors : List String) (syncing : Bool)
    → (summary_of errors syncing).0 ≡ idle_state
    → (errors ≡ []) × (syncing ≡ false)
summary_of-idle [] syncing e = ground arith
summary_of-idle (x ∷ xs) syncing e = ground arith

module _ (uuid_to_string : Uuid → String) where
  abbrev rows : List (Uuid × FolderStatus) → List FolderSyncStatus
  rows folders = map (folder_sync_status uuid_to_string) folders

  idle-rows :
      (folders : List (Uuid × FolderStatus))
      → All IsQuiet folders
      → (all_errors (rows folders) ≡ []) × (any is_syncing (rows folders) ≡ false)
  idle-rows [] q = ground arith
  idle-rows ((id, f) ∷ fs) q = ground (arith, idle-rows fs q.1)

  rows-IsQuiet :
      (folders : List (Uuid × FolderStatus))
      → all_errors (rows folders) ≡ []
      → any is_syncing (rows folders) ≡ false
      → All IsQuiet folders
  rows-IsQuiet [] e s = tt
  rows-IsQuiet ((id, f) ∷ fs) e s =
      let (none_here, none_later) =
        append-nil (folder_errors (folder_sync_status uuid_to_string (id, f)))
          (all_errors (rows fs)) e in
      (
        (ground arith, folder_errors-nil (uuid_to_string id) f.errors none_here),
        rows-IsQuiet fs none_later (ground arith),
      )

  -- The tray shows the idle state exactly if in the tracker no folder is active or has an error.
  pub summarize-idle :
      (t : StatusTracker)
      → ((summarize_sync_status (snapshot uuid_to_string t)).0 ≡ idle_state)
        ↔ All IsQuiet t.state.folders
  unfolding summarize_sync_status snapshot
  summarize-idle t = (
    λ e.
        let (no_errors, inactive) = summary_of-idle _ _ e in
        rows-IsQuiet t.state.folders no_errors inactive,
    λ q. let (no_errors, inactive) = idle-rows t.state.folders q in rw (no_errors, inactive),
  )
