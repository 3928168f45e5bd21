-- ===== src/Engine/Pull.antt =====
-- `initial_pull` of crates/gdrive-sync/src/engine.rs, and what it shares with the other handlers. The
-- recursion is over the folders of Drive: `fuel` bounds its depth, and `none` means that it ran out,
-- or that a listing did not end.
pub mod Complete
pub mod Counts
pub mod Downloads
pub mod Recorded
pub mod Journal
pub mod Termination
use gd_client.Prelude.{
  ℕ, suc, zero, String, Bool, true, false, Option, none, some, List, [], ◌∷◌, ◌+◌, ◌<>◌, not, ◌||◌,
  str_eq, if◌then◌else◌,
}
use gd_client.Effects.{◌>>=◌, ◌>>◌, pure}
use gd_client.Common.Paths.{PathBuf, join}
use gd_client.Common.Config.{SyncFolder, Uuid}
use gd_client.StateDb.{FileStateEntry, find_by_drive_id, upsert_file_state}
use gd_client.Drive.Auth.{is_empty}
use gd_client.Drive.Client.{DriveFile, folder_mime_type}
use gd_client.Engine.Site.{Remote, Host, Work, on_drive, on_disk, on_db}
use gd_client.Engine.Ownership.{Owner, apply_ownership}

-- `==` of two `Option<&str>`
abbrev pub same_text : Option String → Option String → Bool
same_text none none = true
same_text (some a) (some b) = str_eq a b
same_text _ _ = false

abbrev stale : String → DriveFile → Option FileStateEntry → Bool
stale rel_path remote none = true
stale rel_path remote (some existing) =
    not (str_eq existing.local_rel_path rel_path)
    || not (same_text existing.md5_checksum remote.md5_checksum)

-- The row that `record_state` writes.
abbrev pub entry_of : Uuid → String → DriveFile → Bool → ℕ → FileStateEntry
entry_of folder_id rel_path remote is_folder now = record {
  sync_folder_id = folder_id;
  local_rel_path = rel_path;
  drive_file_id = some remote.id;
  is_folder = is_folder;
  local_mtime_secs = some now;
  drive_modified_time = remote.modified_time;
  md5_checksum = remote.md5_checksum;
}

abbrev pub child_path : String → String → String
child_path prefix name = if is_empty prefix then name else prefix <> ("/" <> name)

module _ (R : Remote) (H : Host) where
  unfoldable pub needs_download : Uuid → String → DriveFile → Work R H Bool
  needs_download folder_id rel_path remote = do
    existing ← on_db R H (find_by_drive_id folder_id remote.id)
    pure (stale rel_path remote existing)

  unfoldable pub record_state : Uuid → String → DriveFile → Bool → Work R H Unit
  record_state folder_id rel_path remote is_folder s =
      on_db R H
        (upsert_file_state (entry_of folder_id rel_path remote is_folder (H.now_secs s.disk))) s

  -- A download that is written to a path and recorded.
  unfoldable pub fetch_file : Uuid → Owner → PathBuf → String → DriveFile → Bool → Work R H Unit
  fetch_file folder_id owner local_path rel_path remote is_folder = do
    content ← on_drive R H (R.download_file remote.id)
    on_disk R H (H.write local_path content)
    apply_ownership R H local_path owner
    record_state folder_id rel_path remote is_folder

  module _ (folder : SyncFolder) (owner : Owner) where
    unfoldable pub make_folder : String → DriveFile → Work R H Unit
    make_folder rel_path child = do
      on_disk R H (H.create_dir_all (join folder.local_path rel_path))
      apply_ownership R H (join folder.local_path rel_path) owner
      record_state folder.id rel_path child true

    abbrev pub download_if : Bool → String → DriveFile → Work R H ℕ
    download_if false rel_path child = pure 0
    download_if true rel_path child = do
      fetch_file folder.id owner (join folder.local_path rel_path) rel_path child false
      pure 1

    -- The branch of a file: how many files were downloaded.
    unfoldable pub pull_file : String → DriveFile → Work R H ℕ
    pull_file rel_path child = do
      needed ← needs_download folder.id rel_path child
      download_if needed rel_path child

    abbrev pub is_drive_folder : DriveFile → Bool
    is_drive_folder child = str_eq child.mime_type folder_mime_type

    abbrev pub then_count : Option ℕ → (ℕ → Work R H (Option ℕ)) → Work R H (Option ℕ)
    then_count none next = pure none
    then_count (some n) next = next n

    -- One child; `below` pulls a folder.
    unfoldable pub pull_child :
        (String → String → Work R H (Option ℕ)) → String → DriveFile → Work R H (Option ℕ)
    pull_child below prefix child =
        if is_drive_folder child
        then (do
          make_folder (child_path prefix child.name) child
          below child.id (child_path prefix child.name))
        else (do n ← pull_file (child_path prefix child.name) child; pure (some n))

    -- The loop over the children, with the count so far.
    unfoldable pub pull_children :
        (String → String → Work R H (Option ℕ)) → String → ℕ → List DriveFile → Work R H (Option ℕ)
    pull_children below prefix synced [] = pure (some synced)
    pull_children below prefix synced (child ∷ children) = do
      n ← pull_child below prefix child
      then_count n (λ k. pull_children below prefix (synced + k) children)

    abbrev pub pull_listed :
        (String → String → Work R H (Option ℕ))
        → String
        → Option (List DriveFile)
        → Work R H (Option ℕ)
    pull_listed below prefix none = pure none
    pull_listed below prefix (some children) = pull_children below prefix 0 children

    unfoldable pub initial_pull : ℕ → String → String → Work R H (Option ℕ)
    initial_pull zero drive_folder_id prefix = pure none
    initial_pull (suc fuel) drive_folder_id prefix = do
      children ← on_drive R H (R.list_children drive_folder_id)
      pull_listed (initial_pull fuel) prefix children
