-- ===== src/Engine/Pull/Downloads.antt =====
-- What the steps of `initial_pull` of engine.rs have recorded: no path loses its row, and a success leaves one.
use gd_client.Prelude.{
  String, Bool, true, false, Result, Result-cases, map_err, ok, err, ◌≡◌, refl, sym, subst, inl,
  inr,
}
use gd_client.Prelude.Keys.{nat_ord, string_ord}
use gd_client.Common.Errors.{SyncError, IoError, io}
use gd_client.Common.Paths.{PathBuf, join}
use gd_client.Common.Config.{SyncFolder}
use gd_client.Effects.{Exec, continue, ◌>>=◌}
use gd_client.StateDb.{StateDb, upsert_row, find_by_drive_id, statement, run_statement}
use gd_client.StateDb.Frames.{Wrote, upsert_file_state-Wrote}
use gd_client.Drive.Client.{DriveFile}
use gd_client.Engine.Site.{Remote, Host, Site, Work, on_drive, on_disk}
use gd_client.Engine.Ownership.{Owner, apply_ownership}
use gd_client.Engine.Pull.{
  needs_download, record_state, fetch_file, make_folder, download_if, pull_file, entry_of,
}
use gd_client.Engine.Pull.Recorded.{
  Recorded, upsert_row-Recorded, upserted-Recorded, not_stale-Recorded,
}

module _ (R : Remote) (H : Host) (folder : SyncFolder) (owner : Owner) where
  abbrev pub HasRow : String → Site R H → Type 0
  HasRow path s = Recorded folder.id path s.db.files

  -- No path loses its row.
  abbrev pub Grows : Site R H → Site R H → Type 0
  Grows s t = (path : String) → HasRow path s → HasRow path t

  -- What is left after an action from `s`, and what more there is after a success.
  abbrev pub Done :
      {A : Type 0} → Site R H → (A → Site R H → Type 0) → Result SyncError A → Site R H → Type 0
  Done s Good (err e) t = Grows s t
  Done s Good (ok a) t = Grows s t × Good a t

  Done-from :
      {A : Type 0} (s t : Site R H) (Good : A → Site R H → Type 0) (r : Result SyncError A)
      (u : Site R H)
      → Grows s t
      → Done t Good r u
      → Done s Good r u
  Done-from s t Good (err e) u first later = λ path h. later path (first path h)
  Done-from s t Good (ok a) u first later = (λ path h. later.0 path (first path h), later.1)

  abbrev pub Does : {A : Type 0} → (A → Site R H → Type 0) → Work R H A → Type 0
  Does Good m = (s : Site R H) → Done s Good (m s).0 (m s).1

  pub Done-continue :
      {A B : Type 0} (s : Site R H) (Good : A → Site R H → Type 0) (Good' : B → Site R H → Type 0)
      (r : Result SyncError A) (f : A → Work R H B) (t : Site R H)
      → Done s Good r t
      → ((a : A) → r ≡ ok a → Good a t → Done t Good' (f a t).0 (f a t).1)
      → Done s Good' (continue r f t).0 (continue r f t).1
  Done-continue s Good Good' (err e) f t done next = done
  Done-continue s Good Good' (ok a) f t done next =
      Done-from s t Good' (f a t).0 (f a t).1 done.0 (next a refl done.1)

  pub Does-bind :
      {A B : Type 0} (Good : A → Site R H → Type 0) (Good' : B → Site R H → Type 0) (m : Work R H A)
      (f : A → Work R H B)
      → Does Good m
      → ((a : A) (t : Site R H) → Good a t → Done t Good' (f a t).0 (f a t).1)
      → Does Good' (m >>= f)
  Does-bind Good Good' m f done next s =
      Done-continue s Good Good' (m s).0 f (m s).1 (done s) (λ a e. next a (m s).1)

  abbrev pub Any : {A : Type 0} → A → Site R H → Type 0
  Any a s = Unit {0}

  -- What leaves the database alone loses no row.
  pub on_drive-Does : {A : Type 0} (m : Exec R.World A) → Does Any (on_drive R H m)
  on_drive-Does {A} m s = kept (m s.drive).0
    where
      kept : (r : Result SyncError A) → Done s Any r (record s { drive = (m s.drive).1 })
      kept (err e) = λ path h. h
      kept (ok a) = (λ path h. h, tt)

  on_disk-Does : {A : Type 0} (m : H.Disk → Result IoError A × H.Disk) → Does Any (on_disk R H m)
  on_disk-Does {A} m s = kept (map_err io (m s.disk).0)
    where
      kept : (r : Result SyncError A) → Done s Any r (record s { disk = (m s.disk).1 })
      kept (err e) = λ path h. h
      kept (ok a) = (λ path h. h, tt)

  record_state-Does :
      (path : String) (remote : DriveFile) (is_folder : Bool)
      → Does (λ u. HasRow path) (record_state R H folder.id path remote is_folder)
  unfolding record_state
  record_state-Does path remote is_folder s =
      written _ _ (
        upsert_file_state-Wrote (entry_of folder.id path remote is_folder (H.now_secs s.disk)) s.db)
    where
      written :
          (r : Result SyncError Unit) (db : StateDb)
          → Wrote
              (λ t. t)
              (upsert_row (entry_of folder.id path remote is_folder (H.now_secs s.disk)))
              s.db
              r
              db
          → Done s (λ u. HasRow path) r (record s { db = db })
      written (err e) db w = λ p h. subst (Recorded folder.id p) (sym w.1) h
      written (ok u) db w = (
        λ p h.
            subst (Recorded folder.id p) (sym w.1) (upsert_row-Recorded folder.id p _ s.db.files h),
        subst (Recorded folder.id path) (sym w.1) (upserted-Recorded _ s.db.files),
      )

  owned-Does : (path : PathBuf) → Does Any (apply_ownership R H path owner)
  unfolding apply_ownership
  owned-Does path = on_disk-Does (H.chown path owner.uid owner.gid)

  fetch_file-Does :
      (path : PathBuf) (rel : String) (remote : DriveFile)
      → Does (λ u. HasRow rel) (fetch_file R H folder.id owner path rel remote false)
  unfolding fetch_file
  fetch_file-Does path rel remote =
      Does-bind Any _ (on_drive R H (R.download_file remote.id)) _ (on_drive-Does _) λ content t g.
        Does-bind Any _ (on_disk R H (H.write path content)) _ (on_disk-Does _)
          (λ v u h.
            Does-bind Any _ (apply_ownership R H path owner) _ (owned-Does path)
              (λ x w k. record_state-Does rel remote false w) u)
          t

  pub make_folder-Does :
      (rel : String) (child : DriveFile)
      → Does (λ u. HasRow rel) (make_folder R H folder owner rel child)
  unfolding make_folder
  make_folder-Does rel child =
      Does-bind Any _ (on_disk R H (H.create_dir_all (join folder.local_path rel))) _
        (on_disk-Does _)
        λ v t g.
          Does-bind Any _ (apply_ownership R H (join folder.local_path rel) owner) _ (owned-Does _)
            (λ x w k. record_state-Does rel child true w) t

  needs_download-Does :
      (path : String) (remote : DriveFile)
      → Does (λ needed t. needed ≡ false → HasRow path t) (needs_download R H folder.id path remote)
  unfolding needs_download find_by_drive_id statement
  needs_download-Does path remote s = elim (Result-cases (run_statement s.db.outcomes).0) [
    | inl (u, e) ↦ rw e (λ p h. h, not_stale-Recorded folder.id path remote s.db.files)
    | inr (x, e) ↦ rw e (λ p h. h)
  ]

  pub pull_file-Does :
      (rel : String) (child : DriveFile)
      → Does (λ n. HasRow rel) (pull_file R H folder owner rel child)
  unfolding pull_file
  pull_file-Does rel child =
      Does-bind (λ needed t. needed ≡ false → HasRow rel t) _
        (needs_download R H folder.id rel child) _ (needs_download-Does rel child) download
    where
      download :
          (needed : Bool) (t : Site R H)
          → (needed ≡ false → HasRow rel t)
          → Done t
              (λ n. HasRow rel)
              (download_if R H folder owner needed rel child t).0
              (download_if R H folder owner needed rel child t).1
      download false t h = (λ p k. k, h refl)
      download true t h =
          Does-bind (λ u. HasRow rel) _
            (fetch_file R H folder.id owner (join folder.local_path rel) rel child false) _
            (fetch_file-Does _ rel child) (λ u w k. (λ p l. l, k)) t
