-- ===== src/Engine/Poll/Rules.antt =====
-- The walk through the changes of `poll_remote_changes` of engine.rs: what each call keeps, they all keep.
use gd_client.Prelude.{String, Bool, true, false, Option, none, some, List, [], ◌∷◌, if-cases}
use gd_client.Effects.Keeps.{Keeps, Keeps-bind}
use gd_client.Common.Paths.{PathBuf, join}
use gd_client.Common.Config.{SyncFolder}
use gd_client.StateDb.{
  remove_file_state, FileStateEntry, find_by_drive_id, get_page_token, set_page_token,
}
use gd_client.SyncStatus.{FolderRun, active}
use gd_client.Drive.Client.{DriveFile, Change}
use gd_client.Engine.Site.{SyncEvent, Remote, Host, Site, Work, on_drive, on_disk, on_db}
use gd_client.Engine.Ownership.{Owner, apply_ownership}
use gd_client.Engine.Pull.{fetch_file, record_state, same_text}
use gd_client.Engine.Poll.{
  is_removal, apply_removal, apply_content, apply_change, apply_changes, apply_file, apply_known,
  remove_present, apply_listed, poll_from, poll_remote_changes,
}

module _ (R : Remote) (H : Host) (folder : SyncFolder) (owner : Owner) (run : FolderRun) where
  pub record Stays (P : Site R H → Type 0) : Type 0 where
    pub downloaded : (id : String) → Keeps P (on_drive R H (R.download_file id))
    pub listed : (token : String) → Keeps P (on_drive R H (R.list_changes token))
    pub disk : (s : Site R H) (d : H.Disk) → P s → P (record s { disk = d })
    pub at_work : (s : Site R H) → P s → P (record s { status = active run s.status })
    pub sent : (s : Site R H) (e : SyncEvent) → P s → P (record s { events = e ∷ s.events })
    pub found : (id : String) → Keeps P (on_db R H (find_by_drive_id folder.id id))
    pub recorded :
        (rel : String) (remote : DriveFile) (is_folder : Bool)
        → Keeps P (record_state R H folder.id rel remote is_folder)
    pub forgotten : (rel : String) → Keeps P (on_db R H (remove_file_state folder.id rel))

  module _ {P : Site R H → Type 0} (rule : Stays P) where
    fetch_file-Keeps :
        (path : PathBuf) (rel : String) (remote : DriveFile) (is_folder : Bool)
        → Keeps P (fetch_file R H folder.id owner path rel remote is_folder)
    unfolding fetch_file apply_ownership
    fetch_file-Keeps path rel remote is_folder =
        Keeps-bind P (on_drive R H (R.download_file remote.id)) _ (rule.downloaded remote.id)
          λ content.
            Keeps-bind P (on_disk R H (H.write path content)) _ (λ s. rule.disk s _)
              λ u.
                Keeps-bind P (apply_ownership R H path owner) _ (λ s. rule.disk s _)
                  λ v. rule.recorded rel remote is_folder

    remove_present-Keeps :
        (present is_folder : Bool) (path : PathBuf)
        → Keeps P (remove_present R H folder owner run present is_folder path)
    remove_present-Keeps true true path s p = rule.disk s _ p
    remove_present-Keeps true false path s p = rule.disk s _ p
    remove_present-Keeps false is_folder path s p = p

    apply_removal-Keeps :
        (existing : FileStateEntry) → Keeps P (apply_removal R H folder owner run existing)
    unfolding apply_removal
    apply_removal-Keeps existing s p =
        Keeps-bind P
          (remove_present R H folder owner run
            (H.exists (join folder.local_path existing.local_rel_path) s.disk) existing.is_folder
            (join folder.local_path existing.local_rel_path))
          _ (remove_present-Keeps _ existing.is_folder _)
          (λ u. rule.forgotten existing.local_rel_path) _ (rule.at_work s p)

    apply_content-Keeps :
        (existing : FileStateEntry) (remote : DriveFile)
        → Keeps P (apply_content R H folder owner run existing remote)
    unfolding apply_content
    apply_content-Keeps existing remote s p =
        if-cases (λ (m : Work R H Unit). P (m s).1)
          (same_text remote.md5_checksum existing.md5_checksum) _ _ p
          (Keeps-bind P
            (fetch_file R H folder.id owner (join folder.local_path existing.local_rel_path)
              existing.local_rel_path remote existing.is_folder)
            _ (fetch_file-Keeps _ _ remote existing.is_folder) (λ u t q. rule.sent t _ q) _
            (rule.at_work s p))

    apply_known-Keeps :
        (change : Change) (existing : Option FileStateEntry)
        → Keeps P (apply_known R H folder owner run change existing)
    apply_known-Keeps change none s p = p
    apply_known-Keeps change (some existing) s p =
        if-cases (λ (m : Work R H Unit). P (m s).1) (is_removal change) _ _
          (apply_removal-Keeps existing s p) (file-Keeps change.file)
      where
        file-Keeps :
            (file : Option DriveFile) → P (apply_file R H folder owner run existing file s).1
        file-Keeps none = p
        file-Keeps (some remote) = apply_content-Keeps existing remote s p

    pub apply_changes-Keeps :
        (changes : List Change) → Keeps P (apply_changes R H folder owner run changes)
    unfolding apply_changes apply_change
    apply_changes-Keeps [] = λ s p. p
    apply_changes-Keeps (change ∷ changes) =
        Keeps-bind P (apply_change R H folder owner run change) _
          (Keeps-bind P (on_db R H (find_by_drive_id folder.id change.file_id)) _
            (rule.found change.file_id) (apply_known-Keeps change))
          (λ u. apply_changes-Keeps changes)

    -- A poll keeps what it keeps whether or not it moves the page token.
    pub poll_remote_changes-Keeps :
        Keeps P (on_db R H (get_page_token folder.id))
        → ((token : String) → Keeps P (on_db R H (set_page_token folder.id token)))
        → Keeps P (poll_remote_changes R H folder owner run)
    unfolding poll_remote_changes
    poll_remote_changes-Keeps got put =
        Keeps-bind P (on_db R H (get_page_token folder.id)) _ got from-Keeps
      where
        listed-Keeps :
            (listed : Option (List Change × String))
            → Keeps P (apply_listed R H folder owner run listed)
        listed-Keeps none = λ s p. p
        listed-Keeps (some (changes, new_token)) =
            Keeps-bind P (apply_changes R H folder owner run changes) _
              (apply_changes-Keeps changes)
              λ u.
                Keeps-bind P (on_db R H (set_page_token folder.id new_token)) _ (put new_token)
                  (λ v s p. p)

        from-Keeps : (token : Option String) → Keeps P (poll_from R H folder owner run token)
        from-Keeps none = λ s p. p
        from-Keeps (some token) =
            Keeps-bind P (on_drive R H (R.list_changes token)) _ (rule.listed token) listed-Keeps
