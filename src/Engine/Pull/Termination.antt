-- ===== src/Engine/Pull/Termination.antt =====
-- When the recursion of `initial_pull` in engine.rs ends.
use gd_client.Prelude.{
  ℕ, zero, suc, String, true, Option, none, some, List, [], ◌∷◌, Result, ok, refl, ◌≡◌, ◌≢◌, ◌≤◌,
  All, arith, Bool-cases, inl, inr, ◌+◌, ap, ◌∙◌,
}
use gd_client.Common.Errors.{SyncError}
use gd_client.Common.Config.{SyncFolder}
use gd_client.Effects.Keeps.{continue-ends}
use gd_client.Drive.Client.{DriveFile}
use gd_client.Engine.Site.{Remote, Host, Site, Work}
use gd_client.Engine.Ownership.{Owner}
use gd_client.Engine.Pull.{
  is_drive_folder, make_folder, pull_file, pull_child, pull_children, pull_listed, initial_pull,
  child_path, then_count,
}

module _ (R : Remote) (H : Host) (folder : SyncFolder) (owner : Owner) where
  -- Every listing of the folder ends, and the folders that Drive may ever list in it are nested less
  -- than so deep.
  abbrev pub Nested : ℕ → String → Type 0
  Nested zero id = ⊥
  Nested (suc n) id =
      (w : R.World)
      → ((R.list_children id w).0 ≢ ok none)
        × ((files : List DriveFile)
            → (R.list_children id w).0 ≡ ok (some files)
            → All (λ f. is_drive_folder R H folder owner f ≡ true → Nested n f.id) files)

  -- The result is a count or an error.
  abbrev Counted : Result SyncError (Option ℕ) → Site R H → Type 0
  Counted r s = r ≢ ok none

  abbrev CountsAt : ℕ → (String → String → Work R H (Option ℕ)) → Type 0
  CountsAt n below =
      (id prefix : String) (s : Site R H) → Nested n id → Counted (below id prefix s).0 s

  pull_child-Counted :
      (n : ℕ) (below : String → String → Work R H (Option ℕ)) (prefix : String) (f : DriveFile)
      (s : Site R H)
      → CountsAt n below
      → (is_drive_folder R H folder owner f ≡ true → Nested n f.id)
      → Counted (pull_child R H folder owner below prefix f s).0 s
  unfolding pull_child
  pull_child-Counted n below prefix f s counts nested =
      elim (Bool-cases (is_drive_folder R H folder owner f)) [
        | inl deeper ↦
            rw (deeper, pull_child)
              (continue-ends Counted (make_folder R H folder owner (child_path prefix f.name) f s).0
                _ (make_folder R H folder owner (child_path prefix f.name) f s).1 (λ e h. cc)
                λ u _. counts f.id (child_path prefix f.name) _ (nested deeper))
        | inr plain ↦
            rw (plain, pull_child)
              (continue-ends Counted (pull_file R H folder owner (child_path prefix f.name) f s).0 _
                (pull_file R H folder owner (child_path prefix f.name) f s).1 (λ e h. cc)
                λ k _ h. ground arith)
      ]

  pull_children-Counted :
      (n : ℕ) (below : String → String → Work R H (Option ℕ)) (prefix : String) (synced : ℕ)
      (files : List DriveFile) (s : Site R H)
      → CountsAt n below
      → All (λ f. is_drive_folder R H folder owner f ≡ true → Nested n f.id) files
      → Counted (pull_children R H folder owner below prefix synced files s).0 s
  unfolding pull_children
  pull_children-Counted n below prefix synced [] s counts nested = λ h. ground arith
  pull_children-Counted n below prefix synced (f ∷ files) s counts nested =
      let m = pull_child R H folder owner below prefix f in
      let one = pull_child-Counted n below prefix f s counts nested.0 in
      let rest = λ (k : ℕ). pull_children-Counted n below prefix k files (m s).1 counts nested.1 in
      continue-ends Counted (m s).0 _ (m s).1 (λ e h. cc) (counted one rest)
    where
      counted :
          Counted (pull_child R H folder owner below prefix f s).0 s
          → ((k : ℕ)
              → Counted
                  (pull_children R H folder owner below prefix k files
                    (pull_child R H folder owner below prefix f s).1).0
                  s)
          → (o : Option ℕ) → (pull_child R H folder owner below prefix f s).0 ≡ ok o
          → Counted
              (then_count R H folder owner o
                (λ k. pull_children R H folder owner below prefix (synced + k) files)
                (pull_child R H folder owner below prefix f s).1).0
              s
      counted one rest none e = absurd (one e)
      counted one rest (some k) e = rest (synced + k)

  pull_listed-Counted :
      (n : ℕ) (below : String → String → Work R H (Option ℕ)) (prefix : String)
      (listed : Option (List DriveFile)) (s : Site R H)
      → CountsAt n below
      → listed ≢ none
      → ((files : List DriveFile)
          → listed ≡ some files
          → All (λ f. is_drive_folder R H folder owner f ≡ true → Nested n f.id) files)
      → Counted (pull_listed R H folder owner below prefix listed s).0 s
  pull_listed-Counted n below prefix none s counts ended nested = absurd (ended refl)
  pull_listed-Counted n below prefix (some files) s counts ended nested =
      pull_children-Counted n below prefix 0 files s counts (nested files refl)

  -- If every listing ends and the folders of Drive are nested less than `n` deep below the one that is
  -- pulled, as far as any listing may ever tell, then the pull with fuel `n` or more returns, with
  -- success or with an error, whatever fails, and never for want of fuel.
  pub initial_pull-Counted :
      (n fuel : ℕ) (id prefix : String) (s : Site R H)
      → n ≤ fuel
      → Nested n id
      → (initial_pull R H folder owner fuel id prefix s).0 ≢ ok none
  unfolding initial_pull
  initial_pull-Counted zero fuel id prefix s h nested = absurd nested
  initial_pull-Counted (suc n) zero id prefix s h nested = absurd (omega arith)
  initial_pull-Counted (suc n) (suc fuel) id prefix s h nested =
      let (ended, deeper) = nested s.drive in
      continue-ends Counted (R.list_children id s.drive).0 _
        (record s { drive = (R.list_children id s.drive).1 }) (λ e k. cc)
        λ listed e.
          pull_listed-Counted n (initial_pull R H folder owner fuel) prefix listed _
            (λ i p t d. initial_pull-Counted n fuel i p t (omega arith) d)
            (λ none_listed. ended (e ∙ ap ok none_listed))
            (λ files some_listed. deeper files (e ∙ ap ok some_listed))
