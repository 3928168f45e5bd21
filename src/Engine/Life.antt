-- ===== src/Engine/Life.antt =====
-- What holds of Drive's side of a worker of engine.rs over its whole life, if every method that the worker
-- calls keeps it.

pub mod Handlers
pub mod Sent
use gd_client.Prelude.{
  ℕ, zero, suc, String, Bool, true, false, Option, none, some, List, [], ◌∷◌, ◌+◌, if-cases,
}
use gd_client.Effects.{Exec, ◌>>=◌}
use gd_client.Effects.Keeps.{Keeps, Keeps-bind}
use gd_client.Common.Paths.{PathBuf, join}
use gd_client.Common.Config.{SyncFolder, Uuid}
use gd_client.StateDb.{find_by_drive_id}
use gd_client.Drive.Client.{DriveFile}
use gd_client.Engine.Site.{Remote, Host, Site, Work, on_drive, on_disk, on_db}
use gd_client.Engine.Ownership.{Owner, apply_ownership}
use gd_client.Engine.Pull.{
  needs_download, record_state, fetch_file, make_folder, download_if, pull_file, pull_child,
  pull_children, pull_listed, initial_pull, is_drive_folder, then_count, child_path,
}

-- Each method keeps the predicate.
pub record Respects (R : Remote) (P : R.World → Type 0) : Type 0 where
  pub list_children : (id : String) → Keeps P (R.list_children id)
  pub get_start_page_token : Keeps P R.get_start_page_token
  pub list_changes : (token : String) → Keeps P (R.list_changes token)
  pub create_folder : (name parent_id : String) → Keeps P (R.create_folder name parent_id)
  pub download_file : (id : String) → Keeps P (R.download_file id)
  pub upload_file :
      (id : Option String) (name parent_id : String) (content : List ℕ)
      → Keeps P (R.upload_file id name parent_id content)
  pub delete_file : (id : String) → Keeps P (R.delete_file id)

module _ (R : Remote) (H : Host) (P : R.World → Type 0) (k : Respects R P) where
  abbrev OnDrive : Site R H → Type 0
  OnDrive s = P s.drive

  -- A call of Drive, and what follows it.
  pub Keeps-drive :
      {A B : Type 0} (m : Exec R.World A) (f : A → Work R H B)
      → Keeps P m
      → ((a : A) → Keeps OnDrive (f a))
      → Keeps OnDrive (on_drive R H m >>= f)
  Keeps-drive m f h next = Keeps-bind OnDrive (on_drive R H m) f (λ s p. h s.drive p) next

  pub fetch_file-Keeps :
      (id : Uuid) (owner : Owner) (path : PathBuf) (rel : String) (remote : DriveFile)
      (is_folder : Bool)
      → Keeps OnDrive (fetch_file R H id owner path rel remote is_folder)
  unfolding fetch_file apply_ownership record_state
  fetch_file-Keeps id owner path rel remote is_folder =
      Keeps-drive (R.download_file remote.id) _ (k.download_file remote.id) λ content.
        Keeps-bind OnDrive (on_disk R H (H.write path content)) _ (λ s p. p)
          λ u. Keeps-bind OnDrive (apply_ownership R H path owner) _ (λ s p. p) λ v s p. p

  module _ (folder : SyncFolder) (owner : Owner) where
    make_folder-Keeps :
        (rel : String) (child : DriveFile) → Keeps OnDrive (make_folder R H folder owner rel child)
    unfolding make_folder apply_ownership record_state
    make_folder-Keeps rel child =
        Keeps-bind OnDrive (on_disk R H (H.create_dir_all (join folder.local_path rel))) _
          (λ s p. p)
          λ u.
            Keeps-bind OnDrive (apply_ownership R H (join folder.local_path rel) owner) _ (λ s p. p)
              λ v s p. p

    pull_file-Keeps :
        (rel : String) (child : DriveFile) → Keeps OnDrive (pull_file R H folder owner rel child)
    unfolding pull_file needs_download
    pull_file-Keeps rel child =
        Keeps-bind OnDrive (needs_download R H folder.id rel child) _
          (Keeps-bind OnDrive (on_db R H (find_by_drive_id folder.id child.id)) _ (λ s p. p)
            (λ e s p. p))
          download
      where
        download : (needed : Bool) → Keeps OnDrive (download_if R H folder owner needed rel child)
        download false = λ s p. p
        download true =
            Keeps-bind OnDrive
              (fetch_file R H folder.id owner (join folder.local_path rel) rel child false) _
              (fetch_file-Keeps folder.id owner _ rel child false) (λ u s p. p)

    abbrev Below : (String → String → Work R H (Option ℕ)) → Type 0
    Below below = (id prefix : String) → Keeps OnDrive (below id prefix)

    pull_child-Keeps :
        (below : String → String → Work R H (Option ℕ)) (prefix : String) (child : DriveFile)
        → Below below
        → Keeps OnDrive (pull_child R H folder owner below prefix child)
    unfolding pull_child
    pull_child-Keeps below prefix child h =
        if-cases (λ (m : Work R H (Option ℕ)). Keeps OnDrive m)
          (is_drive_folder R H folder owner child) _ _
          (Keeps-bind OnDrive (make_folder R H folder owner (child_path prefix child.name) child) _
            (make_folder-Keeps _ child) (λ u. h child.id _))
          (Keeps-bind OnDrive (pull_file R H folder owner (child_path prefix child.name) child) _
            (pull_file-Keeps _ child) (λ n s p. p))

    pull_children-Keeps :
        (below : String → String → Work R H (Option ℕ)) (prefix : String) (synced : ℕ)
        (children : List DriveFile)
        → Below below
        → Keeps OnDrive (pull_children R H folder owner below prefix synced children)
    unfolding pull_children
    pull_children-Keeps below prefix synced [] h = λ s p. p
    pull_children-Keeps below prefix synced (child ∷ children) h =
        Keeps-bind OnDrive (pull_child R H folder owner below prefix child) _
          (pull_child-Keeps below prefix child h)
          (go_on (λ i. pull_children-Keeps below prefix (synced + i) children h))
      where
        go_on :
            ((i : ℕ)
              → Keeps OnDrive (pull_children R H folder owner below prefix (synced + i) children))
            → (n : Option ℕ)
            → Keeps OnDrive (
                then_count R H folder owner n
                  (λ i. pull_children R H folder owner below prefix (synced + i) children))
        go_on rest none = λ s p. p
        go_on rest (some i) = rest i

    pub initial_pull-Keeps :
        (fuel : ℕ) (id prefix : String)
        → Keeps OnDrive (initial_pull R H folder owner fuel id prefix)
    unfolding initial_pull
    initial_pull-Keeps zero id prefix = λ s p. p
    initial_pull-Keeps (suc fuel) id prefix =
        Keeps-drive (R.list_children id) _ (k.list_children id) (listed (initial_pull-Keeps fuel))
      where
        listed :
            Below (initial_pull R H folder owner fuel)
            → (children : Option (List DriveFile))
            → Keeps OnDrive
                (pull_listed R H folder owner (initial_pull R H folder owner fuel) prefix children)
        listed below none = λ s p. p
        listed below (some children) =
            pull_children-Keeps (initial_pull R H folder owner fuel) prefix 0 children below
