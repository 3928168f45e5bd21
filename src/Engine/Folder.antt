-- ===== src/Engine/Folder.antt =====
-- `run_folder` of crates/gdrive-sync/src/engine.rs, and the task that `start_folder` spawns around it:
-- the preparation, and then one turn for each local change and each tick of the timer, in the order
-- in which `select!` takes them. `none` means that a call to Drive, or the pull, did not end.
pub mod Turns
use gd_client.Prelude.{
  ℕ, String, Bool, true, false, Option, none, some, List, [], ◌∷◌, Result, ok, err, map_err,
}
use gd_client.Effects.{◌>>=◌, ◌>>◌, pure}
use gd_client.Common.Paths.{strip_prefix}
use gd_client.Common.Errors.{SyncError, notify, error_to_string}
use gd_client.Common.Config.{SyncFolder}
use gd_client.StateDb.{get_page_token, set_page_token}
use gd_client.SyncStatus.{FolderRun, finish}
use gd_client.Engine.Site.{
  Remote, Host, Site, Work, on_drive, on_disk, on_db, on_status, send_event, folder_started,
  initial_sync_complete, local_change_uploaded, error_event,
}
use gd_client.Engine.Ownership.{Owner, resolve_owner}
use gd_client.Engine.Watcher.{LocalChange}
use gd_client.Engine.Pull.{initial_pull}
use gd_client.Engine.Local.{handle_local_change, local_work, path_or}
use gd_client.Engine.Poll.{poll_remote_changes}

abbrev root_of : Option String → String
root_of none = "root"
root_of (some id) = id

abbrev pub root_folder_id : SyncFolder → String
root_folder_id folder = root_of folder.drive_folder_id

-- The key of the work on a local change.
abbrev pub work_of : SyncFolder → LocalChange → String
work_of folder change =
    local_work (path_or (strip_prefix change.path folder.local_path) change.path)

-- What the loop is woken by.
pub data Wake : Type 0 where
  local_wake : LocalChange → Wake
  tick : Wake

module _ (R : Remote) (H : Host) (folder : SyncFolder) (run : FolderRun) where
  abbrev pub owner : Owner
  owner = resolve_owner H folder.owner_user folder.owner_group

  abbrev pub keep_token : Option String → Work R H Unit
  keep_token (some token) = pure tt
  keep_token none = do
    token ← on_drive R H R.get_start_page_token
    on_db R H (set_page_token folder.id token)

  unfoldable pub ensure_page_token : Work R H Unit
  ensure_page_token = do token ← on_db R H (get_page_token folder.id); keep_token token

  abbrev pub start_watching : Work R H Unit
  start_watching s =
      let (r, disk) = H.watch folder.local_path s.disk in
      (map_err notify r, record s { disk = disk })

  abbrev pub after_pull : Option ℕ → Work R H (Option Unit)
  after_pull none = pure none
  after_pull (some synced) = do
    send_event R H (initial_sync_complete folder.id synced)
    ensure_page_token
    start_watching
    on_status R H (finish run "initial sync" (ok tt))
    pure (some tt)

  -- `run_folder` up to its loop.
  unfoldable pub prepare : ℕ → Work R H (Option Unit)
  prepare fuel = do
    send_event R H (folder_started folder.id)
    on_disk R H (H.create_dir_all folder.local_path)
    synced ← initial_pull R H folder owner fuel (root_folder_id folder) ""
    after_pull synced

  -- What the loop does with the result of a local change.
  abbrev pub after_local : LocalChange → Result SyncError Bool × Site R H → Site R H
  after_local change (ok false, s) = s
  after_local change (ok true, s) = record s {
    status = finish run (work_of folder change) (ok tt) s.status;
    events = local_change_uploaded folder.id change.path ∷ s.events;
  }
  after_local change (err e, s) = record s {
    status = finish run (work_of folder change) (err (error_to_string e)) s.status;
    events = error_event folder.id (error_to_string e) ∷ s.events;
  }

  abbrev pub after_poll : Result SyncError (Option Unit) × Site R H → Option (Site R H)
  after_poll (ok none, s) = none
  after_poll (ok (some _), s) =
      some (record s { status = finish run "remote changes" (ok tt) s.status })
  after_poll (err e, s) = some (record s {
    status = finish run "remote changes" (err (error_to_string e)) s.status;
    events = error_event folder.id (error_to_string e) ∷ s.events;
  })

  -- One turn of the loop.
  unfoldable pub wake : Wake → Site R H → Option (Site R H)
  wake (local_wake change) s = some (
      after_local change
        (handle_local_change R H folder (root_folder_id folder) owner run change s))
  wake tick s = after_poll (poll_remote_changes R H folder owner run s)

  abbrev pub wake_then : (Site R H → Option (Site R H)) → Option (Site R H) → Option (Site R H)
  wake_then next none = none
  wake_then next (some s) = next s

  unfoldable pub wakes : List Wake → Site R H → Option (Site R H)
  wakes [] s = some s
  wakes (w ∷ ws) s = wake_then (wakes ws) (wake w s)

  -- A failure of the preparation ends the task.
  abbrev pub after_prepare :
      List Wake → Result SyncError (Option Unit) × Site R H → Option (Site R H)
  after_prepare ws (ok none, s) = none
  after_prepare ws (ok (some _), s) = wakes ws s
  after_prepare ws (err e, s) = some (record s {
    status = finish run "initial sync" (err (error_to_string e)) s.status;
    events = error_event folder.id (error_to_string e) ∷ s.events;
  })

  -- The task of a folder.
  unfoldable pub run_folder : ℕ → List Wake → Site R H → Option (Site R H)
  run_folder fuel ws s = after_prepare ws (prepare fuel s)
