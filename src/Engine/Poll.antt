-- ===== src/Engine/Poll.antt =====
-- `poll_remote_changes` of crates/gdrive-sync/src/engine.rs: what changed on Drive goes to the host.
-- `none` means that the listing of the changes did not end.
pub mod Rules
pub mod Tokens
use gd_client.Prelude.{
  String, Bool, true, false, Option, none, some, List, [], ◌∷◌, ◌||◌, if◌then◌else◌, ok,
}
use gd_client.Effects.{◌>>=◌, ◌>>◌, pure}
use gd_client.Common.Paths.{PathBuf, join}
use gd_client.Common.Config.{SyncFolder}
use gd_client.StateDb.{
  FileStateEntry, find_by_drive_id, remove_file_state, get_page_token, set_page_token,
}
use gd_client.SyncStatus.{FolderRun, active}
use gd_client.Drive.Client.{DriveFile, Change}
use gd_client.Engine.Site.{
  Remote, Host, Work, on_drive, on_disk, on_db, on_status, send_event, remote_change_applied,
}
use gd_client.Engine.Ownership.{Owner}
use gd_client.Engine.Pull.{fetch_file, same_text}

-- `change.file.as_ref().map(|f| f.trashed).unwrap_or(true)`
abbrev trashed_or_gone : Option DriveFile → Bool
trashed_or_gone none = true
trashed_or_gone (some f) = f.trashed

abbrev pub is_removal : Change → Bool
is_removal change = change.removed || trashed_or_gone change.file

module _ (R : Remote) (H : Host) (folder : SyncFolder) (owner : Owner) (run : FolderRun) where
  abbrev remove_path : Bool → PathBuf → Work R H Unit
  remove_path true path = on_disk R H (H.remove_dir_all path)
  remove_path false path = on_disk R H (H.remove_file path)

  abbrev remove_present : Bool → Bool → PathBuf → Work R H Unit
  remove_present true is_folder path = remove_path is_folder path
  remove_present false is_folder path = pure tt

  unfoldable pub apply_removal : FileStateEntry → Work R H Unit
  apply_removal existing = do
    on_status R H (active run)
    present ← λ s. (ok (H.exists (join folder.local_path existing.local_rel_path) s.disk), s)
    remove_present present existing.is_folder (join folder.local_path existing.local_rel_path)
    on_db R H (remove_file_state folder.id existing.local_rel_path)

  -- A file whose checksum is the recorded one is left alone.
  unfoldable pub apply_content : FileStateEntry → DriveFile → Work R H Unit
  apply_content existing remote =
      if same_text remote.md5_checksum existing.md5_checksum then pure tt else (do
        on_status R H (active run)
        fetch_file R H folder.id owner (join folder.local_path existing.local_rel_path)
            existing.local_rel_path remote existing.is_folder
        send_event R H
            (remote_change_applied folder.id (join folder.local_path existing.local_rel_path)))

  abbrev apply_file : FileStateEntry → Option DriveFile → Work R H Unit
  apply_file existing none = pure tt
  apply_file existing (some remote) = apply_content existing remote

  abbrev apply_known : Change → Option FileStateEntry → Work R H Unit
  apply_known change none = pure tt
  apply_known change (some existing) =
      if is_removal change then apply_removal existing else apply_file existing change.file

  -- One change of the list.
  unfoldable pub apply_change : Change → Work R H Unit
  apply_change change = do
    existing ← on_db R H (find_by_drive_id folder.id change.file_id)
    apply_known change existing

  unfoldable pub apply_changes : List Change → Work R H Unit
  apply_changes [] = pure tt
  apply_changes (change ∷ changes) = do apply_change change; apply_changes changes

  abbrev apply_listed : Option (List Change × String) → Work R H (Option Unit)
  apply_listed none = pure none
  apply_listed (some (changes, new_token)) = do
    apply_changes changes
    on_db R H (set_page_token folder.id new_token)
    pure (some tt)

  abbrev poll_from : Option String → Work R H (Option Unit)
  poll_from none = pure (some tt)
  poll_from (some page_token) = do
    listed ← on_drive R H (R.list_changes page_token)
    apply_listed listed

  unfoldable pub poll_remote_changes : Work R H (Option Unit)
  poll_remote_changes = do page_token ← on_db R H (get_page_token folder.id); poll_from page_token
