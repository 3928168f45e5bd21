-- ===== src/Engine/Local/Rows.antt =====
-- What `handle_local_change` of engine.rs makes of the rows of the state database.
use gd_client.Prelude.{
  ℕ, String, Bool, true, false, List, Option, none, some, Result, ok, err, refl, sym, ◌≡◌, ◌∙◌, ◌⊎◌,
  inl, inr, ap,
}
use gd_client.Common.Errors.{SyncError}
use gd_client.Common.Paths.{PathBuf, strip_prefix}
use gd_client.Common.Config.{SyncFolder}
use gd_client.Effects.{continue, pure, ◌>>=◌}
use gd_client.Effects.Keeps.{Ends, continue-ends}
use gd_client.StateDb.{
  StateDb, FileStateEntry, find_by_local_path, remove_file_state, upsert_row, delete_rows,
}
use gd_client.StateDb.Frames.{
  Wrote, upsert_file_state-Wrote, remove_file_state-Wrote, find_by_local_path-Keeps,
}
use gd_client.SyncStatus.{FolderRun, active}
use gd_client.Drive.Client.{DriveFile}
use gd_client.Engine.Site.{Remote, Host, Site, on_drive, on_db}
use gd_client.Engine.Ownership.{Owner}
use gd_client.Engine.Watcher.{LocalChange}
use gd_client.Engine.Pull.{record_state, entry_of}
use gd_client.Engine.Local.Rules.{Settles, handle_local_change-Ends}
use gd_client.Engine.Local.{path_or, handle_local_change, rel_text, delete_remote}

module _ (R : Remote) (H : Host) (folder : SyncFolder) (root_folder_id : String) (owner : Owner)
    (run : FolderRun) (F : List FileStateEntry) (X : R.World) where
  abbrev Untouched : Site R H → Type 0
  Untouched s = (s.db.files ≡ F) × (s.drive ≡ X)

  -- The row of an entry of Drive.
  abbrev pub row_for : String → DriveFile → Bool → ℕ → FileStateEntry
  row_for rel_path remote is_folder now = record {
    sync_folder_id = folder.id;
    local_rel_path = rel_path;
    drive_file_id = some remote.id;
    is_folder = is_folder;
    local_mtime_secs = some now;
    drive_modified_time = remote.modified_time;
    md5_checksum = remote.md5_checksum;
  }

  -- Drive was asked once, and its answer is the row that was written.
  abbrev pub Stored :
      String → Bool → (R.World → Result SyncError DriveFile × R.World) → Site R H → Type 0
  Stored rel_path is_folder ask s =
      (remote : DriveFile) × (now : ℕ) × (ask X ≡ (ok remote, s.drive))
      × (s.db.files ≡ upsert_row (row_for rel_path remote is_folder now) F)

  -- What became of the entry of Drive that the row named, if it named one.
  abbrev pub Deleted : Option String → R.World → Type 0
  Deleted none drive = drive ≡ X
  Deleted (some id) drive = R.delete_file id X ≡ (ok tt, drive)

  -- The row of the path was found, and both it and the entry that it names are gone.
  abbrev pub Erased : String → Site R H → Type 0
  Erased rel_path s =
      (existing : FileStateEntry) × (db : StateDb) × (db.files ≡ F)
      × ((find_by_local_path folder.id rel_path db).0 ≡ ok (some existing))
      × Deleted existing.drive_file_id s.drive
      × (s.db.files ≡ delete_rows folder.id rel_path F)

  abbrev pub Handled : String → Result SyncError Bool → Site R H → Type 0
  Handled rel_path (err e) s = s.db.files ≡ F
  Handled rel_path (ok false) s = (s.db.files ≡ F) × (s.drive ≡ X)
  Handled rel_path (ok true) s =
      ((s.db.files ≡ F) × (s.drive ≡ X))
      ⊎ Erased rel_path s
      ⊎ ((name parent_id : String) × Stored rel_path true (R.create_folder name parent_id) s)
      ⊎ ((id : Option String) × (name parent_id : String) × (content : List ℕ) × Stored rel_path
            false (R.upload_file id name parent_id content) s)

  -- What is recorded after an answer of Drive.
  recorded-Handled :
      (rel_path : String) (remote : DriveFile) (is_folder : Bool) (t : Site R H)
      → t.db.files ≡ F
      → ((s : Site R H)
          → s.drive ≡ t.drive
          → s.db.files ≡ upsert_row (row_for rel_path remote is_folder (H.now_secs t.disk)) F
          → Handled rel_path (ok true) s)
      → (r : Result SyncError Unit) (db : StateDb)
      → Wrote
          (λ t. t)
          (upsert_row (entry_of folder.id rel_path remote is_folder (H.now_secs t.disk)))
          t.db
          r
          db
      → Handled rel_path
          (continue r (λ v. pure true) (record t { db = db })).0
          (continue r (λ v. pure true) (record t { db = db })).1
  recorded-Handled rel_path remote is_folder t p done (ok u) db w =
      done (record t { db = db }) refl (w.1 ∙ ap (upsert_row _) p)
  recorded-Handled rel_path remote is_folder t p done (err e) db w = w.1 ∙ p

  Stored-Handled :
      (rel_path : String) (is_folder : Bool) (ask : R.World → Result SyncError DriveFile × R.World)
      → ((s : Site R H) → Stored rel_path is_folder ask s → Handled rel_path (ok true) s)
      → Ends Untouched (Handled rel_path) (
          on_drive R H ask >>= λ remote.
          record_state R H folder.id rel_path remote is_folder >>= λ v. pure true)
  unfolding record_state
  Stored-Handled rel_path is_folder ask told s (rows, drive) =
      continue-ends (Handled rel_path) (ask s.drive).0 _ (record s { drive = (ask s.drive).1 })
        (λ e. rows)
        λ remote e.
          recorded-Handled rel_path remote is_folder (record s { drive = (ask s.drive).1 }) rows
            (λ t same written. told t (
              remote,
              H.now_secs s.disk,
              ap ask (sym drive)
                  ∙ ap (λ r. (r, (ask s.drive).1)) e
                  ∙ ap (λ d. (ok remote, d)) (sym same),
              written,
            ))
            _ _
            (upsert_file_state-Wrote
              (entry_of folder.id rel_path remote is_folder (H.now_secs s.disk)) s.db)

  removed_row-Handled :
      (rel_path : String) (t : Site R H)
      → t.db.files ≡ F
      → ((s : Site R H)
          → s.drive ≡ t.drive
          → s.db.files ≡ delete_rows folder.id rel_path F
          → Handled rel_path (ok true) s)
      → (r : Result SyncError Unit) (db : StateDb)
      → Wrote (λ t. t) (delete_rows folder.id rel_path) t.db r db
      → Handled rel_path
          (continue r (λ v. pure true) (record t { db = db })).0
          (continue r (λ v. pure true) (record t { db = db })).1
  removed_row-Handled rel_path t p done (ok u) db w =
      done (record t { db = db }) refl (w.1 ∙ ap (delete_rows folder.id rel_path) p)
  removed_row-Handled rel_path t p done (err e) db w = w.1 ∙ p

  forget-Handled :
      (rel_path : String) (id : Option String) (s : Site R H)
      → Untouched s
      → ((t : Site R H)
          → Deleted id t.drive
          → t.db.files ≡ delete_rows folder.id rel_path F
          → Handled rel_path (ok true) t)
      → let r =
          (delete_remote R H folder root_folder_id owner run id >>= λ _.
          on_db R H (remove_file_state folder.id rel_path) >>= λ v. pure true)
            s in
        Handled rel_path r.0 r.1
  forget-Handled rel_path none s (rows, drive) done =
      removed_row-Handled rel_path s rows (λ t same gone. done t (same ∙ drive) gone) _ _
        (remove_file_state-Wrote folder.id rel_path s.db)
  forget-Handled rel_path (some id) s (rows, drive) done =
      let gone = R.delete_file id s.drive in
      let t : Site R H = record s { status = active run s.status; drive = gone.1 } in
      continue-ends (Handled rel_path) gone.0 _ t (λ e. rows)
        λ u e.
          removed_row-Handled rel_path t rows
            (λ v same rest.
              done v
                (ap (R.delete_file id) (sym drive)
                  ∙ ap (λ r. (r, gone.1)) e
                  ∙ ap (λ d. (ok tt, d)) (sym same))
                rest)
            _ _ (remove_file_state-Wrote folder.id rel_path s.db)

  rows-Settles :
      (rel_path : PathBuf)
      → Settles R H folder root_folder_id owner run rel_path Untouched Untouched
          (Handled (rel_text rel_path))
  rows-Settles rel_path = record {
    weaken = λ s p. p;
    failed = λ s e p. p.0;
    skipped = λ s p. p;
    done = λ s p. inl p;
    asked = λ s d p. p;
    looked = λ rel s p. (find_by_local_path-Keeps (λ t f. f ≡ F) folder.id rel s.db p.0, p.1);
    cleared = λ s p. p;
    at_work = λ s p. p;
    added = λ name parent_id.
        Stored-Handled (rel_text rel_path) true (R.create_folder name parent_id)
          λ s told. inr (inr (inl (name, parent_id, told)));
    uploaded = λ id name parent_id content.
        Stored-Handled (rel_text rel_path) false (R.upload_file id name parent_id content)
          λ s told. inr (inr (inr (id, name, parent_id, content, told)));
    erased = λ existing s p found.
        let rel = rel_text rel_path in
        forget-Handled rel existing.drive_file_id _
          (find_by_local_path-Keeps (λ t f. f ≡ F) folder.id rel s.db p.0, p.1)
          λ t deleted gone. inr (inl (existing, s.db, p.0, found, deleted, gone));
  }

  -- A local change that is handled leaves Drive and the rows of the state database as follows. If it
  -- fails, the rows are the ones from before. If there was nothing to do, the rows and Drive are the ones
  -- from before. If it succeeds, then either the rows and Drive are the ones from before, or the row of
  -- the path was found and is gone, with the entry of Drive that it named, or Drive was asked once, to
  -- make a folder or to take a file, and the row of the path is that of the entry that it answered.
  pub handle_local_change-Handled :
      (change : LocalChange) (s : Site R H)
      → (s.db.files ≡ F) × (s.drive ≡ X)
      → Handled
          (rel_text (path_or (strip_prefix change.path folder.local_path) change.path))
          (handle_local_change R H folder root_folder_id owner run change s).0
          (handle_local_change R H folder root_folder_id owner run change s).1
  handle_local_change-Handled change =
      handle_local_change-Ends R H folder root_folder_id owner run change (rows-Settles _)
