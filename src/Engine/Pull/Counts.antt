-- ===== src/Engine/Pull/Counts.antt =====
-- What `initial_pull` of engine.rs returns: the number of files that it downloaded.
use gd_client.Prelude.{
  ℕ, zero, suc, ◌≢◌, String, Bool, true, false, Option, none, some, List, [], ◌∷◌, Result, ok, err,
  refl, ◌≡◌, ◌≤◌, ◌+◌, arith, Bool-cases, inl, inr, ◌∙◌, subst,
}
use gd_client.Common.Errors.{SyncError}
use gd_client.Common.Config.{SyncFolder}
use gd_client.Common.Paths.{PathBuf, join}
use gd_client.Effects.Keeps.{Keeps, Keeps-bind, continue-ends, Ends-bind}
use gd_client.StateDb.{find_by_drive_id}
use gd_client.Drive.Client.{DriveFile}
use gd_client.Engine.Site.{Remote, Host, Site, Work, on_db, on_disk}
use gd_client.Engine.Ownership.{Owner, apply_ownership}
use gd_client.Engine.Pull.{
  is_drive_folder, make_folder, pull_file, pull_child, pull_children, pull_listed, initial_pull,
  child_path, then_count, fetch_file, needs_download, download_if, record_state,
}
use gd_client.Engine.Pull.Termination.{Nested, initial_pull-Counted}

add_none : (n : ℕ) → n ≡ n + 0
add_none n = omega arith

-- `m` tells how many downloads have succeeded so far.
pub record IsCount (R : Remote) (m : R.World → ℕ) : Type 0 where
  pub listing : (id : String) (w : R.World) → m (R.list_children id w).1 ≡ m w
  pub download :
      (id : String) (w : R.World) (content : List ℕ)
      → (R.download_file id w).0 ≡ ok content
      → m (R.download_file id w).1 ≡ suc (m w)

module _ (R : Remote) (H : Host) (folder : SyncFolder) (owner : Owner) (m : R.World → ℕ)
    (C : IsCount R m) where
  -- A count is that of the downloads since there were `start` of them.
  abbrev Counts : ℕ → Result SyncError (Option ℕ) → Site R H → Type 0
  Counts start (err e) s = Unit
  Counts start (ok none) s = Unit
  Counts start (ok (some k)) s = m s.drive ≡ start + k

  abbrev FileCounts : ℕ → Result SyncError ℕ → Site R H → Type 0
  FileCounts start (err e) s = Unit
  FileCounts start (ok k) s = m s.drive ≡ start + k

  abbrev CountsAll : (String → String → Work R H (Option ℕ)) → Type 0
  CountsAll below =
      (id prefix : String) (s : Site R H)
      → Counts (m s.drive) (below id prefix s).0 (below id prefix s).1

  abbrev Same : ℕ → Site R H → Type 0
  Same n s = m s.drive ≡ n

  make_folder-Keeps :
      (n : ℕ) (rel_path : String) (child : DriveFile)
      → Keeps (Same n) (make_folder R H folder owner rel_path child)
  unfolding make_folder apply_ownership record_state
  make_folder-Keeps n rel_path child =
      Keeps-bind (Same n) (on_disk R H (H.create_dir_all _)) _ (λ s p. p)
        λ u. Keeps-bind (Same n) (apply_ownership R H _ owner) _ (λ s p. p) λ v s p. p

  abbrev Once : ℕ → Result SyncError Unit → Site R H → Type 0
  Once n (err e) s = Unit
  Once n (ok u) s = m s.drive ≡ suc n

  Same-Once : (n : ℕ) (r : Result SyncError Unit) (s : Site R H) → Same (suc n) s → Once n r s
  Same-Once n (err e) s p = tt
  Same-Once n (ok u) s p = p

  fetch_file-Once :
      (path : PathBuf) (rel_path : String) (child : DriveFile) (is_folder : Bool) (s : Site R H)
      → Once
          (m s.drive)
          (fetch_file R H folder.id owner path rel_path child is_folder s).0
          (fetch_file R H folder.id owner path rel_path child is_folder s).1
  unfolding fetch_file apply_ownership record_state
  fetch_file-Once path rel_path child is_folder s =
      let n = m s.drive in
      let loaded = R.download_file child.id s.drive in
      continue-ends (Once n) loaded.0 _ (record s { drive = loaded.1 }) (λ e. tt)
        λ content e.
          Ends-bind (Same (suc n)) (Once n) (on_disk R H (H.write path content)) _ (λ t x p. tt)
            (λ t p. p)
            (λ u.
              Ends-bind (Same (suc n)) (Once n) (apply_ownership R H path owner) _ (λ t x p. tt)
                (λ t p. p)
                λ v t p.
                  Same-Once n (record_state R H folder.id rel_path child is_folder t).0
                    (record_state R H folder.id rel_path child is_folder t).1 p)
            (record s { drive = loaded.1 }) (C.download child.id s.drive content e)

  needs_download-Keeps :
      (n : ℕ) (rel_path : String) (child : DriveFile)
      → Keeps (Same n) (needs_download R H folder.id rel_path child)
  unfolding needs_download
  needs_download-Keeps n rel_path child =
      Keeps-bind (Same n) (on_db R H (find_by_drive_id folder.id child.id)) _ (λ s p. p) λ o s p. p

  pull_file-FileCounts :
      (rel_path : String) (child : DriveFile) (s : Site R H)
      → FileCounts
          (m s.drive)
          (pull_file R H folder owner rel_path child s).0
          (pull_file R H folder owner rel_path child s).1
  unfolding pull_file
  pull_file-FileCounts rel_path child s =
      let needed = needs_download R H folder.id rel_path child s in
      continue-ends (FileCounts (m s.drive)) needed.0 _ needed.1 (λ e. tt) λ b e. download b
    where
      download :
          (b : Bool)
          → FileCounts
              (m s.drive)
              (download_if R H folder owner b rel_path child
                (needs_download R H folder.id rel_path child s).1).0
              (download_if R H folder owner b rel_path child
                (needs_download R H folder.id rel_path child s).1).1
      download false = needs_download-Keeps (m s.drive) rel_path child s refl ∙ add_none (m s.drive)
      download true =
          let t = (needs_download R H folder.id rel_path child s).1 in
          let path = join folder.local_path rel_path in
          let asked = needs_download-Keeps (m s.drive) rel_path child s refl in
          let fetched = fetch_file R H folder.id owner path rel_path child false t in
          continue-ends (FileCounts (m s.drive)) fetched.0 _ fetched.1 (λ e. tt)
            λ u e.
              let once =
                subst (λ r. Once (m t.drive) r fetched.1) e
                  (fetch_file-Once path rel_path child false t) in
              omega arith

  pull_child-Counts :
      (below : String → String → Work R H (Option ℕ)) (prefix : String) (f : DriveFile)
      (s : Site R H)
      → CountsAll below
      → Counts
          (m s.drive)
          (pull_child R H folder owner below prefix f s).0
          (pull_child R H folder owner below prefix f s).1
  unfolding pull_child
  pull_child-Counts below prefix f s counts =
      elim (Bool-cases (is_drive_folder R H folder owner f)) [
        | inl deeper ↦
            let made = make_folder R H folder owner (child_path prefix f.name) f s in
            rw (deeper, pull_child)
              (continue-ends (Counts (m s.drive)) made.0 _ made.1 (λ e. tt)
                λ u _.
                  subst
                    (λ n.
                      Counts n (below f.id (child_path prefix f.name) made.1).0
                        (below f.id (child_path prefix f.name) made.1).1)
                    (make_folder-Keeps (m s.drive) (child_path prefix f.name) f s refl)
                    (counts f.id (child_path prefix f.name) made.1))
        | inr plain ↦
            let pulled = pull_file R H folder owner (child_path prefix f.name) f s in
            rw (plain, pull_child)
              (continue-ends (Counts (m s.drive)) pulled.0 _ pulled.1 (λ e. tt)
                λ k e.
                  subst (λ r. FileCounts (m s.drive) r pulled.1) e
                    (pull_file-FileCounts (child_path prefix f.name) f s))
      ]

  -- The loop adds the count so far, which stands for downloads before it.
  pull_children-Counts :
      (below : String → String → Work R H (Option ℕ)) (prefix : String) (start synced : ℕ)
      (files : List DriveFile) (s : Site R H)
      → CountsAll below
      → m s.drive ≡ start + synced
      → Counts start
          (pull_children R H folder owner below prefix synced files s).0
          (pull_children R H folder owner below prefix synced files s).1
  unfolding pull_children
  pull_children-Counts below prefix start synced [] s counts at_start = at_start
  pull_children-Counts below prefix start synced (f ∷ files) s counts at_start =
      let one = pull_child R H folder owner below prefix f s in
      continue-ends (Counts start) one.0 _ one.1 (λ e. tt)
        (counted λ k enough.
          pull_children-Counts below prefix start (synced + k) files one.1 counts enough)
    where
      counted :
          ((k : ℕ)
            → m (pull_child R H folder owner below prefix f s).1.drive ≡ start + (synced + k)
            → Counts start
                (pull_children R H folder owner below prefix
                  (synced + k)
                  files
                  (pull_child R H folder owner below prefix f s).1).0
                (pull_children R H folder owner below prefix
                  (synced + k)
                  files
                  (pull_child R H folder owner below prefix f s).1).1)
          → (o : Option ℕ) → (pull_child R H folder owner below prefix f s).0 ≡ ok o
          → Counts start
              (then_count R H folder owner o
                (λ k. pull_children R H folder owner below prefix (synced + k) files)
                (pull_child R H folder owner below prefix f s).1).0
              (then_count R H folder owner o
                (λ k. pull_children R H folder owner below prefix (synced + k) files)
                (pull_child R H folder owner below prefix f s).1).1
      counted rest none e = tt
      counted rest (some k) e =
          let one = pull_child R H folder owner below prefix f s in
          let now =
            subst (λ r. Counts (m s.drive) r one.1) e (pull_child-Counts below prefix f s counts) in
          rest k (omega arith)

  initial_pull-Counts : (fuel : ℕ) → CountsAll (initial_pull R H folder owner fuel)
  unfolding initial_pull
  initial_pull-Counts zero id prefix s = tt
  initial_pull-Counts (suc fuel) id prefix s =
      let listed = R.list_children id s.drive in
      continue-ends (Counts (m s.drive)) listed.0 _ (record s { drive = listed.1 }) (λ e. tt)
        λ o e. pulled (initial_pull-Counts fuel) o
    where
      pulled :
          CountsAll (initial_pull R H folder owner fuel)
          → (o : Option (List DriveFile))
          → let t : Site R H = record s { drive = (R.list_children id s.drive).1 } in
            Counts
              (m s.drive)
              (pull_listed R H folder owner (initial_pull R H folder owner fuel) prefix o t).0
              (pull_listed R H folder owner (initial_pull R H folder owner fuel) prefix o t).1
      pulled deeper none = tt
      pulled deeper (some files) =
          let same = C.listing id s.drive in
          pull_children-Counts (initial_pull R H folder owner fuel) prefix (m s.drive) 0 files _
            deeper (same ∙ add_none (m s.drive))

  -- The pull has returned: after a success with the number of its downloads, and in no case for want of
  -- fuel.
  abbrev pub PullEnded : ℕ → Result SyncError (Option ℕ) → Site R H → Type 0
  PullEnded start (err e) s = Unit
  PullEnded start (ok none) s = ⊥
  PullEnded start (ok (some k)) s = m s.drive ≡ start + k

  ended :
      (start : ℕ) (r : Result SyncError (Option ℕ)) (s : Site R H)
      → r ≢ ok none
      → Counts start r s
      → PullEnded start r s
  ended start (err e) s back counts = tt
  ended start (ok none) s back counts = back refl
  ended start (ok (some k)) s back counts = counts

  -- If every listing ends and the folders of Drive are nested less than `n` deep below the one that is
  -- pulled, as far as any listing may ever tell, then the pull with fuel `n` or more returns: with an
  -- error, or with the number of downloads that have succeeded since its start, as any count of the
  -- downloads of Drive tells it.
  pub initial_pull-PullEnded :
      (n fuel : ℕ) (id prefix : String) (s : Site R H)
      → n ≤ fuel
      → Nested R H folder owner n id
      → PullEnded
          (m s.drive)
          (initial_pull R H folder owner fuel id prefix s).0
          (initial_pull R H folder owner fuel id prefix s).1
  initial_pull-PullEnded n fuel id prefix s h nested =
      ended (m s.drive) _ _ (initial_pull-Counted R H folder owner n fuel id prefix s h nested)
        (initial_pull-Counts fuel id prefix s)
