-- ===== src/Engine/Local.antt =====
-- `handle_local_change` of crates/gdrive-sync/src/engine.rs: a change of a local file goes to Drive.
pub mod Rules
pub mod Rows
use gd_client.Prelude.{
  String, Bool, true, false, Option, none, some, [], ◌∷◌, ◌<>◌, if◌then◌else◌, Result, ok, err,
}
use gd_client.Effects.{◌>>=◌, ◌>>◌, pure, fail}
use gd_client.Common.Paths.{PathBuf, strip_prefix, parent, file_name, display, forward_slashes}
use gd_client.Common.Errors.{IoError, io}
use gd_client.Common.Config.{SyncFolder}
use gd_client.StateDb.{FileStateEntry, find_by_local_path, remove_file_state}
use gd_client.SyncStatus.{FolderRun, active, clear_error}
use gd_client.Drive.Auth.{is_empty}
use gd_client.Engine.Site.{Remote, Host, Work, on_drive, on_disk, on_db, on_status}
use gd_client.Engine.Ownership.{Owner, apply_ownership}
use gd_client.Engine.Watcher.{LocalChange, LocalChangeKind, created, modified, removed, other}
use gd_client.Engine.Pull.{record_state}

abbrev pub drive_id : Option FileStateEntry → Option String
drive_id none = none
drive_id (some entry) = entry.drive_file_id

abbrev or_text : Option String → String → String
or_text none s = s
or_text (some t) s = t

-- `local_rel_path` of a path under the folder
abbrev pub rel_text : PathBuf → String
rel_text rel_path = forward_slashes (display rel_path)

-- The path under the folder, or else the whole path, as `run_folder` names the work on it.
abbrev pub path_or : Option PathBuf → PathBuf → PathBuf
path_or none path = path
path_or (some rel_path) path = rel_path

-- The key of the errors of a path's work.
abbrev pub local_work : PathBuf → String
local_work rel_path = "local " <> display rel_path

module _ (R : Remote) (H : Host) (folder : SyncFolder) (root_folder_id : String) (owner : Owner)
    (run : FolderRun) where
  unfoldable pub find_local_state : String → Work R H (Option FileStateEntry)
  find_local_state rel_path = on_db R H (find_by_local_path folder.id rel_path)

  -- From the parent of the path, where the empty one is filtered out.
  abbrev folder_id_at : Option PathBuf → Work R H String
  folder_id_at none = pure root_folder_id
  folder_id_at (some []) = pure root_folder_id
  folder_id_at (some (c ∷ p)) = do
    entry ← on_db R H (find_by_local_path folder.id (rel_text (c ∷ p)))
    pure (or_text (drive_id entry) root_folder_id)

  unfoldable pub parent_drive_folder_id : PathBuf → Work R H String
  parent_drive_folder_id rel_path = folder_id_at (parent rel_path)

  abbrev name_of : PathBuf → String
  name_of rel_path = or_text (file_name rel_path) ""

  abbrev delete_remote : Option String → Work R H Unit
  delete_remote none = pure tt
  delete_remote (some id) = do on_status R H (active run); on_drive R H (R.delete_file id)

  abbrev forget : String → Option FileStateEntry → Work R H Bool
  forget rel_path none = pure true
  forget rel_path (some existing) = do
    delete_remote existing.drive_file_id
    on_db R H (remove_file_state folder.id rel_path)
    pure true

  -- The branch of a removal.
  unfoldable pub handle_removed : String → Work R H Bool
  handle_removed rel_path = do existing ← find_local_state rel_path; forget rel_path existing

  abbrev clear_untracked : PathBuf → Option String → Work R H Bool
  clear_untracked rel_path (some id) = pure false
  clear_untracked rel_path none = do
    on_status R H (clear_error run (local_work rel_path))
    pure false

  -- The path is gone again.
  unfoldable pub handle_vanished : PathBuf → Work R H Bool
  handle_vanished rel_path = do
    existing ← find_local_state (rel_text rel_path)
    clear_untracked rel_path (drive_id existing)

  abbrev add_folder : PathBuf → String → Option FileStateEntry → Work R H Bool
  add_folder rel_path parent_drive_id (some existing) = pure true
  add_folder rel_path parent_drive_id none = do
    on_status R H (active run)
    made ← on_drive R H (R.create_folder (name_of rel_path) parent_drive_id)
    record_state R H folder.id (rel_text rel_path) made true
    pure true

  unfoldable pub handle_folder : PathBuf → Work R H Bool
  handle_folder rel_path = do
    parent_drive_id ← parent_drive_folder_id rel_path
    existing ← find_local_state (rel_text rel_path)
    add_folder rel_path parent_drive_id existing

  unfoldable pub handle_file : PathBuf → PathBuf → Work R H Bool
  handle_file path rel_path = do
    content ← on_disk R H (H.read path)
    apply_ownership R H path owner
    existing ← find_local_state (rel_text rel_path)
    parent_drive_id ← parent_drive_folder_id rel_path
    on_status R H (active run)
    uploaded ←
        on_drive R H (R.upload_file (drive_id existing) (name_of rel_path) parent_drive_id content)
    record_state R H folder.id (rel_text rel_path) uploaded false
    pure true

  abbrev with_metadata : PathBuf → PathBuf → Result IoError Bool → Work R H Bool
  with_metadata path rel_path (ok true) = handle_folder rel_path
  with_metadata path rel_path (ok false) = handle_file path rel_path
  with_metadata path rel_path (err e) =
      if e.not_found then handle_vanished rel_path else fail (io e)

  -- The branch of every other kind.
  unfoldable pub handle_written : PathBuf → PathBuf → Work R H Bool
  handle_written path rel_path s =
      let (m, disk) = H.metadata path s.disk in
      with_metadata path rel_path m (record s { disk = disk })

  abbrev handle_kind : LocalChangeKind → PathBuf → PathBuf → Work R H Bool
  handle_kind removed path rel_path = handle_removed (rel_text rel_path)
  handle_kind created path rel_path = handle_written path rel_path
  handle_kind modified path rel_path = handle_written path rel_path
  handle_kind other path rel_path = handle_written path rel_path

  abbrev pub handle_under : LocalChange → Option PathBuf → Work R H Bool
  handle_under change none = pure false
  handle_under change (some rel_path) =
      if is_empty (rel_text rel_path)
      then pure false
      else handle_kind change.kind change.path rel_path

  -- Whether there was anything to do.
  unfoldable pub handle_local_change : LocalChange → Work R H Bool
  handle_local_change change = handle_under change (strip_prefix change.path folder.local_path)
