-- ===== src/Engine/Local/Rules.antt =====
-- The walk through `handle_local_change` of engine.rs, once for all its properties: what holds at its end
-- follows from what each of its calls leaves behind.
use gd_client.Prelude.{
  ℕ, List, String, Bool, true, false, Option, none, some, [], ◌∷◌, Result, ok, err, ◌≡◌,
}
use gd_client.Common.Errors.{SyncError, IoError, io}
use gd_client.Common.Paths.{PathBuf, parent, strip_prefix}
use gd_client.Common.Config.{SyncFolder}
use gd_client.Effects.{pure, ◌>>=◌, fail}
use gd_client.Effects.Keeps.{Keeps, Ends, Ends-bind, Ends-if, Keeps-bind, continue-ends}
use gd_client.StateDb.{remove_file_state, FileStateEntry, find_by_local_path}
use gd_client.SyncStatus.{FolderRun, active, clear_error}
use gd_client.Drive.Client.{DriveFile}
use gd_client.Drive.Auth.{is_empty}
use gd_client.Engine.Site.{Remote, Host, Site, on_drive, on_disk, on_db}
use gd_client.Engine.Ownership.{Owner, apply_ownership}
use gd_client.Engine.Watcher.{LocalChange, LocalChangeKind, removed, created, modified, other}
use gd_client.Engine.Pull.{record_state}
use gd_client.Engine.Local.{
  local_work, handle_under, path_or, handle_local_change, find_local_state, parent_drive_folder_id,
  handle_removed, handle_vanished, handle_folder, handle_file, handle_written, rel_text, drive_id,
  name_of, add_folder, clear_untracked, delete_remote, folder_id_at, forget, handle_kind,
  with_metadata,
}

module _ (R : Remote) (H : Host) (folder : SyncFolder) (root_folder_id : String) (owner : Owner)
    (run : FolderRun) where
  -- `P₀` holds until the work is shown, `P` then, and `Q` at the end of the work on `rel_path`.
  pub record Settles (rel_path : PathBuf) (P₀ P : Site R H → Type 0)
      (Q : Result SyncError Bool → Site R H → Type 0) : Type 0 where
    pub weaken : (s : Site R H) → P₀ s → P s
    pub failed : (s : Site R H) (e : SyncError) → P s → Q (err e) s
    pub skipped : (s : Site R H) → P₀ s → Q (ok false) s
    pub done : (s : Site R H) → P₀ s → Q (ok true) s
    pub asked : (s : Site R H) (d : H.Disk) → P₀ s → P₀ (record s { disk = d })
    pub looked : (rel : String) → Keeps P₀ (on_db R H (find_by_local_path folder.id rel))
    pub cleared :
        (s : Site R H)
        → P₀ s
        → P₀ (record s { status = clear_error run (local_work rel_path) s.status })
    pub at_work : (s : Site R H) → P₀ s → P (record s { status = active run s.status })
    pub added :
        (name parent_id : String)
        → Ends P Q (
            on_drive R H (R.create_folder name parent_id) >>= λ made.
            record_state R H folder.id (rel_text rel_path) made true >>= λ v. pure true)
    pub uploaded :
        (id : Option String) (name parent_id : String) (content : List ℕ)
        → Ends P Q (
            on_drive R H (R.upload_file id name parent_id content) >>= λ file.
            record_state R H folder.id (rel_text rel_path) file false >>= λ v. pure true)
    pub erased :
        (existing : FileStateEntry) (s : Site R H)
        → P₀ s
        → (find_by_local_path folder.id (rel_text rel_path) s.db).0 ≡ ok (some existing)
        → let r =
            forget R H folder root_folder_id owner run
              (rel_text rel_path)
              (some existing)
              (record s { db = (find_by_local_path folder.id (rel_text rel_path) s.db).1 }) in
          Q r.0 r.1

  module _ (rel_path : PathBuf) (P₀ P : Site R H → Type 0)
      (Q : Result SyncError Bool → Site R H → Type 0) where
    abbrev Recorded : Type 0
    Recorded =
        (remote : DriveFile) (is_folder : Bool)
        → Ends P Q
            (record_state R H folder.id (rel_text rel_path) remote is_folder >>= λ v. pure true)

    -- For a rule that does not look at what Drive answers.
    pub added-of :
        ((s : Site R H) (e : SyncError) → P s → Q (err e) s)
        → ((name parent_id : String) → Keeps P (on_drive R H (R.create_folder name parent_id)))
        → Recorded
        → (name parent_id : String)
        → Ends P Q (
            on_drive R H (R.create_folder name parent_id) >>= λ made.
            record_state R H folder.id (rel_text rel_path) made true >>= λ v. pure true)
    added-of failed made recorded name parent_id =
        Ends-bind P Q (on_drive R H (R.create_folder name parent_id)) _ failed (made name parent_id)
          λ remote. recorded remote true

    pub uploaded-of :
        ((s : Site R H) (e : SyncError) → P s → Q (err e) s)
        → ((id : Option String) (name parent_id : String) (content : List ℕ)
            → Keeps P (on_drive R H (R.upload_file id name parent_id content)))
        → Recorded
        → (id : Option String) (name parent_id : String) (content : List ℕ)
        → Ends P Q (
            on_drive R H (R.upload_file id name parent_id content) >>= λ file.
            record_state R H folder.id (rel_text rel_path) file false >>= λ v. pure true)
    uploaded-of failed sent recorded id name parent_id content =
        Ends-bind P Q (on_drive R H (R.upload_file id name parent_id content)) _ failed
          (sent id name parent_id content) λ remote. recorded remote false

    delete_remote-Keeps :
        ((s : Site R H) → P s → P (record s { status = active run s.status }))
        → ((id : String) → Keeps P (on_drive R H (R.delete_file id)))
        → (id : Option String) → Keeps P (delete_remote R H folder root_folder_id owner run id)
    delete_remote-Keeps at_work deleted none = λ s p. p
    delete_remote-Keeps at_work deleted (some id) = λ s p. deleted id _ (at_work s p)

    pub erased-of :
        ((s : Site R H) (e : SyncError) → P s → Q (err e) s)
        → ((s : Site R H) → P₀ s → P s)
        → Keeps P (on_db R H (find_by_local_path folder.id (rel_text rel_path)))
        → ((s : Site R H) → P s → P (record s { status = active run s.status }))
        → ((id : String) → Keeps P (on_drive R H (R.delete_file id)))
        → Ends P Q (on_db R H (remove_file_state folder.id (rel_text rel_path)) >>= λ v. pure true)
        → (existing : FileStateEntry) (s : Site R H) → P₀ s
        → (find_by_local_path folder.id (rel_text rel_path) s.db).0 ≡ ok (some existing)
        → let r =
            forget R H folder root_folder_id owner run
              (rel_text rel_path)
              (some existing)
              (record s { db = (find_by_local_path folder.id (rel_text rel_path) s.db).1 }) in
          Q r.0 r.1
    erased-of failed weaken found at_work deleted forgotten existing s p e =
        Ends-bind P Q (delete_remote R H folder root_folder_id owner run existing.drive_file_id) _
          failed (delete_remote-Keeps at_work deleted existing.drive_file_id) (λ u. forgotten) _
          (found s (weaken s p))

  module _ {rel_path : PathBuf} {P₀ P : Site R H → Type 0}
      {Q : Result SyncError Bool → Site R H → Type 0} (rule : Settles rel_path P₀ P Q) where
    failed₀ : (s : Site R H) (e : SyncError) → P₀ s → Q (err e) s
    failed₀ s e p = rule.failed s e (rule.weaken s p)

    find-unchanged :
        (rel : String) → Keeps P₀ (find_local_state R H folder root_folder_id owner run rel)
    unfolding find_local_state
    find-unchanged rel = rule.looked rel

    folder_id_at-Keeps :
        (p : Option PathBuf) → Keeps P₀ (folder_id_at R H folder root_folder_id owner run p)
    folder_id_at-Keeps none = λ s p. p
    folder_id_at-Keeps (some []) = λ s p. p
    folder_id_at-Keeps (some (c ∷ q)) =
        Keeps-bind P₀ (on_db R H (find_by_local_path folder.id (rel_text (c ∷ q)))) _
          (rule.looked (rel_text (c ∷ q))) (λ entry s p. p)

    parent-Keeps : Keeps P₀ (parent_drive_folder_id R H folder root_folder_id owner run rel_path)
    unfolding parent_drive_folder_id
    parent-Keeps = folder_id_at-Keeps (parent rel_path)

    file-Ends :
        (path : PathBuf) → Ends P₀ Q (handle_file R H folder root_folder_id owner run path rel_path)
    unfolding handle_file apply_ownership
    file-Ends path =
        Ends-bind P₀ Q (on_disk R H (H.read path)) _ failed₀ (λ s. rule.asked s _)
          λ content.
            Ends-bind P₀ Q (apply_ownership R H path owner) _ failed₀ (λ s. rule.asked s _)
              λ u.
                Ends-bind P₀ Q
                  (find_local_state R H folder root_folder_id owner run (rel_text rel_path)) _
                  failed₀ (find-unchanged _)
                  λ existing.
                    Ends-bind P₀ Q
                      (parent_drive_folder_id R H folder root_folder_id owner run rel_path) _
                      failed₀ parent-Keeps
                      λ parent_drive_id s p.
                        rule.uploaded (drive_id existing)
                          (name_of R H folder root_folder_id owner run rel_path) parent_drive_id
                          content _ (rule.at_work s p)

    add_folder-Ends :
        (parent_drive_id : String) (existing : Option FileStateEntry)
        → Ends P₀ Q
            (add_folder R H folder root_folder_id owner run rel_path parent_drive_id existing)
    add_folder-Ends parent_drive_id (some existing) = rule.done
    add_folder-Ends parent_drive_id none = λ s p.
        rule.added (name_of R H folder root_folder_id owner run rel_path) parent_drive_id _
          (rule.at_work s p)

    folder-Ends : Ends P₀ Q (handle_folder R H folder root_folder_id owner run rel_path)
    unfolding handle_folder
    folder-Ends =
        Ends-bind P₀ Q (parent_drive_folder_id R H folder root_folder_id owner run rel_path) _
          failed₀ parent-Keeps
          λ parent_drive_id.
            Ends-bind P₀ Q
              (find_local_state R H folder root_folder_id owner run (rel_text rel_path)) _ failed₀
              (find-unchanged _) (add_folder-Ends parent_drive_id)

    clear_untracked-Ends :
        (id : Option String)
        → Ends P₀ Q (clear_untracked R H folder root_folder_id owner run rel_path id)
    clear_untracked-Ends (some id) s p = rule.skipped s p
    clear_untracked-Ends none s p = rule.skipped _ (rule.cleared s p)

    vanished-Ends : Ends P₀ Q (handle_vanished R H folder root_folder_id owner run rel_path)
    unfolding handle_vanished
    vanished-Ends =
        Ends-bind P₀ Q (find_local_state R H folder root_folder_id owner run (rel_text rel_path)) _
          failed₀ (find-unchanged _) (λ existing. clear_untracked-Ends (drive_id existing))

    removed-Ends :
        Ends P₀ Q (handle_removed R H folder root_folder_id owner run (rel_text rel_path))
    unfolding handle_removed find_local_state
    removed-Ends s p =
        let looking = find_by_local_path folder.id (rel_text rel_path) s.db in
        let seen = rule.looked (rel_text rel_path) s p in
        continue-ends Q looking.0 _ (record s { db = looking.1 }) (λ e. failed₀ _ e seen) after
      where
        after :
            (o : Option FileStateEntry)
            → (find_by_local_path folder.id (rel_text rel_path) s.db).0 ≡ ok o
            → let r =
                forget R H folder root_folder_id owner run
                  (rel_text rel_path)
                  o
                  (record s { db = (find_by_local_path folder.id (rel_text rel_path) s.db).1 }) in
              Q r.0 r.1
        after none e = rule.done _ (rule.looked (rel_text rel_path) s p)
        after (some existing) e = rule.erased existing s p e

    metadata-Ends :
        (path : PathBuf) (m : Result IoError Bool)
        → Ends P₀ Q (with_metadata R H folder root_folder_id owner run path rel_path m)
    metadata-Ends path (ok true) s p = folder-Ends s p
    metadata-Ends path (ok false) s p = file-Ends path s p
    metadata-Ends path (err e) s p =
        Ends-if P₀ Q e.not_found (handle_vanished R H folder root_folder_id owner run rel_path)
          (fail (io e)) vanished-Ends (λ t. failed₀ t (io e)) s p

    written-Ends :
        (path : PathBuf)
        → Ends P₀ Q (handle_written R H folder root_folder_id owner run path rel_path)
    unfolding handle_written
    written-Ends path s p = metadata-Ends path (H.metadata path s.disk).0 _ (rule.asked s _ p)

    kind-Ends :
        (kind : LocalChangeKind) (path : PathBuf)
        → Ends P₀ Q (handle_kind R H folder root_folder_id owner run kind path rel_path)
    kind-Ends removed path s p = removed-Ends s p
    kind-Ends created path s p = written-Ends path s p
    kind-Ends modified path s p = written-Ends path s p
    kind-Ends other path s p = written-Ends path s p

  under-Ends :
      {P₀ P : Site R H → Type 0} {Q : Result SyncError Bool → Site R H → Type 0}
      (change : LocalChange) (found : Option PathBuf)
      → Settles (path_or found change.path) P₀ P Q
      → Ends P₀ Q (handle_under R H folder root_folder_id owner run change found)
  under-Ends change none rule s p = rule.skipped s p
  under-Ends {P₀} {P} {Q} change (some rel_path) rule s p =
      Ends-if P₀ Q (is_empty (rel_text rel_path)) (pure false)
        (handle_kind R H folder root_folder_id owner run change.kind change.path rel_path)
        rule.skipped (kind-Ends rule change.kind change.path) s p

  pub handle_local_change-Ends :
      {P₀ P : Site R H → Type 0} {Q : Result SyncError Bool → Site R H → Type 0}
      (change : LocalChange)
      → Settles (path_or (strip_prefix change.path folder.local_path) change.path) P₀ P Q
      → Ends P₀ Q (handle_local_change R H folder root_folder_id owner run change)
  unfolding handle_local_change
  handle_local_change-Ends change rule =
      under-Ends change (strip_prefix change.path folder.local_path) rule
