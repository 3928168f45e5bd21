-- ===== src/Engine/Pull/Journal.antt =====
-- What a download of engine.rs leaves in the state database: the row is the record of a finished one.
use gd_client.Prelude.{ℕ, String, Bool, List, Result, ok, err, map_err, refl, ◌≡◌}
use gd_client.Common.Errors.{SyncError, IoError, io}
use gd_client.Common.Paths.{PathBuf}
use gd_client.Common.Config.{Uuid}
use gd_client.Effects.Keeps.{continue-ends}
use gd_client.StateDb.{StateDb, upsert_row, upsert_file_state}
use gd_client.StateDb.Frames.{Wrote, upsert_file_state-Wrote}
use gd_client.Drive.Client.{DriveFile}
use gd_client.Engine.Site.{Remote, Host, Site}
use gd_client.Engine.Ownership.{Owner, apply_ownership}
use gd_client.Engine.Pull.{fetch_file, record_state, entry_of}

map_err-ok : {A : Type 0} (r : Result IoError A) (a : A) → map_err io r ≡ ok a → r ≡ ok a
map_err-ok (ok b) a e = cc
map_err-ok (err x) a e = absurd (cc)

module _ (R : Remote) (H : Host) (folder_id : Uuid) (owner : Owner) (path : PathBuf) (rel : String)
    (remote : DriveFile) (is_folder : Bool) (s : Site R H) where
  -- The file was downloaded, written and given to its owner, and then recorded.
  pub record Recorded (s' : Site R H) : Type 0 where
    pub content : List ℕ
    pub now : ℕ
    pub downloaded : (R.download_file remote.id s.drive).0 ≡ ok content
    pub written : (H.write path content s.disk).0 ≡ ok tt
    pub owned : (H.chown path owner.uid owner.gid (H.write path content s.disk).1).0 ≡ ok tt
    pub row : s'.db.files ≡ upsert_row (entry_of folder_id rel remote is_folder now) s.db.files

  abbrev pub Journal : Result SyncError Unit → Site R H → Type 0
  Journal (err e) s' = s'.db.files ≡ s.db.files
  Journal (ok u) s' = Recorded s'

  upsert-Journal :
      (content : List ℕ) (now : ℕ) (t : Site R H) (r : Result SyncError Unit) (db : StateDb)
      → (R.download_file remote.id s.drive).0 ≡ ok content
      → (H.write path content s.disk).0 ≡ ok tt
      → (H.chown path owner.uid owner.gid (H.write path content s.disk).1).0 ≡ ok tt
      → Wrote (λ f. f) (upsert_row (entry_of folder_id rel remote is_folder now)) s.db r db
      → Journal r (record t { db = db })
  upsert-Journal content now t (err e) db d w o wrote = wrote.1
  upsert-Journal content now t (ok u) db d w o wrote = record {
    content = content;
    now = now;
    downloaded = d;
    written = w;
    owned = o;
    row = wrote.1;
  }

  -- A download that fails, at whatever step, leaves the rows as they were. One that succeeds has written
  -- what Drive answered and changed its owner, each without an error, and has then written the row of
  -- the file, and no other.
  pub fetch_file-Journal :
      Journal
        (fetch_file R H folder_id owner path rel remote is_folder s).0
        (fetch_file R H folder_id owner path rel remote is_folder s).1
  unfolding fetch_file apply_ownership record_state
  fetch_file-Journal =
      let fetched : Site R H = record s { drive = (R.download_file remote.id s.drive).1 } in
      continue-ends Journal (R.download_file remote.id s.drive).0 _ fetched (λ e. refl)
        λ content d.
          let wrote = H.write path content s.disk in
          let saved : Site R H = record fetched { disk = wrote.1 } in
          continue-ends Journal (map_err io wrote.0) _ saved (λ e. refl)
            λ u w.
              let owned = H.chown path owner.uid owner.gid wrote.1 in
              let given : Site R H = record saved { disk = owned.1 } in
              continue-ends Journal (map_err io owned.0) _ given (λ e. refl)
                λ v o.
                  let entry = entry_of folder_id rel remote is_folder (H.now_secs owned.1) in
                  upsert-Journal content (H.now_secs owned.1) given (upsert_file_state entry s.db).0
                    (upsert_file_state entry s.db).1 d (map_err-ok wrote.0 tt w)
                    (map_err-ok owned.0 tt o) (upsert_file_state-Wrote entry s.db)
