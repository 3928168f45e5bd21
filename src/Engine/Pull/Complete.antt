-- ===== src/Engine/Pull/Complete.antt =====
-- What `initial_pull` of engine.rs has recorded when it succeeds.
use gd_client.Prelude.{
  ℕ, zero, suc, String, true, Option, none, some, List, [], ◌∷◌, ◌+◌, All-mono, if-split, Result,
  ok, err, All, ◌≡◌, subst,
}
use gd_client.Prelude.Keys.{nat_ord, string_ord}
use gd_client.Common.Errors.{SyncError}
use gd_client.Common.Config.{SyncFolder}
use gd_client.Drive.Client.{DriveFile}
use gd_client.Engine.Site.{Remote, Host, Site, Work}
use gd_client.Engine.Ownership.{Owner}
use gd_client.Engine.Pull.{
  make_folder, pull_file, pull_child, pull_children, pull_listed, initial_pull, is_drive_folder,
  then_count, child_path,
}
use gd_client.Engine.Pull.Downloads.{
  HasRow, Grows, Done, Done-continue, Does, Does-bind, Any, on_drive-Does, make_folder-Does,
  pull_file-Does,
}

module _ (R : Remote) (H : Host) (folder : SyncFolder) (owner : Owner) where
  module _ (tree : String → List DriveFile) where
    -- Every entry of the folder, and of the folders in it down to a depth, has a row.
    abbrev pub Mirrored : ℕ → String → String → Site R H → Type 0
    Mirrored zero id prefix s = ⊥
    Mirrored (suc n) id prefix s =
        All
          (λ f.
            HasRow R H folder owner (child_path prefix f.name) s
            × (is_drive_folder R H folder owner f ≡ true
                → Mirrored n f.id (child_path prefix f.name) s))
          (tree id)

    abbrev Entry : ℕ → String → DriveFile → Site R H → Type 0
    Entry n prefix f s =
        HasRow R H folder owner (child_path prefix f.name) s
        × (is_drive_folder R H folder owner f ≡ true → Mirrored n f.id (child_path prefix f.name) s)

    Mirrored-Grows :
        (n : ℕ) (id prefix : String) (s t : Site R H)
        → Grows R H folder owner s t
        → Mirrored n id prefix s
        → Mirrored n id prefix t
    Mirrored-Grows zero id prefix s t more h = h
    Mirrored-Grows (suc n) id prefix s t more h =
        All-mono (λ f. Entry n prefix f s) (λ f. Entry n prefix f t) (tree id)
          (λ f e.
            (more _ e.0, λ is. Mirrored-Grows n f.id (child_path prefix f.name) s t more (e.1 is)))
          h

    -- A count, of entries that all have their rows then.
    abbrev IfCounted : (Site R H → Type 0) → Option ℕ → Site R H → Type 0
    IfCounted P none s = Unit {0}
    IfCounted P (some k) s = P s

    abbrev MirrorsAt : ℕ → (String → String → Work R H (Option ℕ)) → Type 0
    MirrorsAt n below =
        (id prefix : String)
        → Does R H folder owner (IfCounted (Mirrored n id prefix)) (below id prefix)

    pull_child-Does :
        (n : ℕ) (below : String → String → Work R H (Option ℕ)) (prefix : String) (f : DriveFile)
        → MirrorsAt n below
        → Does R H folder owner
            (IfCounted (Entry n prefix f))
            (pull_child R H folder owner below prefix f)
    unfolding pull_child
    pull_child-Does n below prefix f mirrors s =
        if-split
          (λ (m : Work R H (Option ℕ)).
            Done R H folder owner s (IfCounted (Entry n prefix f)) (m s).0 (m s).1)
          (is_drive_folder R H folder owner f) _ _
          (λ is.
            Does-bind R H folder owner (λ u. HasRow R H folder owner (child_path prefix f.name)) _
              (make_folder R H folder owner (child_path prefix f.name) f) _
              (make_folder-Does R H folder owner _ f)
              (λ u t row. inside is t row _ _ (mirrors f.id (child_path prefix f.name) t)) s)
          (λ not_folder.
            Does-bind R H folder owner (λ k. HasRow R H folder owner (child_path prefix f.name)) _
              (pull_file R H folder owner (child_path prefix f.name) f) _
              (pull_file-Does R H folder owner _ f)
              (λ k t row. (λ p h. h, (row, λ is. absurd (cc)))) s)
      where
        inside :
            is_drive_folder R H folder owner f ≡ true
            → (t : Site R H) → HasRow R H folder owner (child_path prefix f.name) t
            → (r : Result SyncError (Option ℕ)) (u : Site R H)
            → Done R H folder owner t (IfCounted (Mirrored n f.id (child_path prefix f.name))) r u
            → Done R H folder owner t (IfCounted (Entry n prefix f)) r u
        inside is t row (err e) u d = d
        inside is t row (ok none) u d = d
        inside is t row (ok (some k)) u d = (d.0, (d.0 _ row, λ still. d.1))

    pull_children-Does :
        (n : ℕ) (below : String → String → Work R H (Option ℕ)) (prefix : String) (synced : ℕ)
        (files : List DriveFile)
        → MirrorsAt n below
        → Does R H folder owner
            (IfCounted (λ s. All (λ f. Entry n prefix f s) files))
            (pull_children R H folder owner below prefix synced files)
    unfolding pull_children
    pull_children-Does n below prefix synced [] mirrors s = (λ p h. h, tt)
    pull_children-Does n below prefix synced (f ∷ files) mirrors s =
        Does-bind R H folder owner (IfCounted (Entry n prefix f)) _
          (pull_child R H folder owner below prefix f) _ (pull_child-Does n below prefix f mirrors)
          (λ o t first. rest o t first (λ k. pull_children-Does n below prefix k files mirrors t)) s
      where
        both :
            (t : Site R H)
            → Entry n prefix f t
            → (r : Result SyncError (Option ℕ)) (u : Site R H)
            → Done R H folder owner t (IfCounted (λ s. All (λ f. Entry n prefix f s) files)) r u
            → Done R H folder owner t
                (IfCounted (λ s. All (λ f. Entry n prefix f s) (f ∷ files)))
                r
                u
        both t first (err e) u d = d
        both t first (ok none) u d = d
        both t first (ok (some k)) u d = (
          d.0,
          (
            (
              d.0 _ first.0,
              λ is. Mirrored-Grows n f.id (child_path prefix f.name) t u d.0 (first.1 is),
            ),
            d.1,
          ),
        )

        rest :
            (o : Option ℕ) (t : Site R H)
            → IfCounted (Entry n prefix f) o t
            → ((k : ℕ)
                → Done R H folder owner t
                    (IfCounted (λ s. All (λ f. Entry n prefix f s) files))
                    (pull_children R H folder owner below prefix k files t).0
                    (pull_children R H folder owner below prefix k files t).1)
            → Done R H folder owner t
                (IfCounted (λ s. All (λ f. Entry n prefix f s) (f ∷ files)))
                (then_count R H folder owner o
                  (λ k. pull_children R H folder owner below prefix (synced + k) files)
                  t).0
                (then_count R H folder owner o
                  (λ k. pull_children R H folder owner below prefix (synced + k) files)
                  t).1
        rest none t first later = (λ p h. h, tt)
        rest (some k) t first later = both t first _ _ (later (synced + k))

    module _
        (steady : (id : String) (w : R.World) (files : List DriveFile)
          → (R.list_children id w).0 ≡ ok (some files)
          → files ≡ tree id) where
      pull_listed-Does :
          (n : ℕ) (id prefix : String) (listed : Option (List DriveFile)) (w : R.World)
          → (R.list_children id w).0 ≡ ok listed
          → MirrorsAt n (initial_pull R H folder owner n)
          → Does R H folder owner
              (IfCounted (Mirrored (suc n) id prefix))
              (pull_listed R H folder owner (initial_pull R H folder owner n) prefix listed)
      pull_listed-Does n id prefix none w e mirrors s = (λ p h. h, tt)
      pull_listed-Does n id prefix (some files) w e mirrors s =
          subst
            (λ fs.
              Done R H folder owner s (IfCounted (λ s. All (λ f. Entry n prefix f s) fs))
                (pull_children R H folder owner (initial_pull R H folder owner n) prefix 0 files
                  s).0
                (pull_children R H folder owner (initial_pull R H folder owner n) prefix 0 files
                  s).1)
            (steady id w files e)
            (pull_children-Does n (initial_pull R H folder owner n) prefix 0 files mirrors s)

      initial_pull-Does : (fuel : ℕ) → MirrorsAt fuel (initial_pull R H folder owner fuel)
      unfolding initial_pull
      initial_pull-Does zero id prefix s = (λ p h. h, tt)
      initial_pull-Does (suc fuel) id prefix s =
          Done-continue R H folder owner s (Any R H folder owner) _ (R.list_children id s.drive).0 _
            _ (on_drive-Does R H folder owner (R.list_children id) s)
            λ listed e g.
              pull_listed-Does fuel id prefix listed s.drive e (initial_pull-Does fuel) _

  -- While the folders of Drive do not change, that is, as long as every listing of a folder that succeeds
  -- gives its entries in `tree`: after an initial pull that succeeds, every entry of the folder and of all
  -- folders in it has a row under its path, and no path that had a row before has lost it.
  pub initial_pull-Mirrored :
      (tree : String → List DriveFile)
      → ((id : String) (w : R.World) (files : List DriveFile)
          → (R.list_children id w).0 ≡ ok (some files)
          → files ≡ tree id)
      → (fuel : ℕ) (id prefix : String) (s : Site R H) (synced : ℕ)
      → (initial_pull R H folder owner fuel id prefix s).0 ≡ ok (some synced)
      → Mirrored tree fuel id prefix (initial_pull R H folder owner fuel id prefix s).1
        × Grows R H folder owner s (initial_pull R H folder owner fuel id prefix s).1
  initial_pull-Mirrored tree steady fuel id prefix s synced e =
      let d =
        subst
          (λ r.
            Done R H folder owner s (IfCounted tree (Mirrored tree fuel id prefix)) r
              (initial_pull R H folder owner fuel id prefix s).1)
          e (initial_pull-Does tree steady fuel id prefix s) in
      (d.1, d.0)
