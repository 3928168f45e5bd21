-- ===== src/Engine/Life/Handlers.antt =====
-- The turns of the loop of engine.rs, and the whole task of a folder: what Drive's methods keep.
use gd_client.Prelude.{
  ℕ, String, Bool, true, false, Option, none, some, List, [], ◌∷◌, Result, ok, err,
}
use gd_client.Effects.{◌>>=◌, ◌>>◌, pure}
use gd_client.Effects.Keeps.{Keeps, Keeps-bind}
use gd_client.Common.Errors.{SyncError}
use gd_client.Common.Paths.{PathBuf}
use gd_client.Common.Config.{SyncFolder}
use gd_client.StateDb.{get_page_token, remove_file_state}
use gd_client.SyncStatus.{FolderRun, finish}
use gd_client.Engine.Site.{
  Remote, Host, Site, Work, on_status, on_disk, on_db, send_event, folder_started,
  initial_sync_complete,
}
use gd_client.Engine.Pull.{record_state, initial_pull}
use gd_client.Drive.Client.{DriveFile}
use gd_client.Engine.Local.{rel_text}
use gd_client.Engine.Local.Rules.{
  Settles, handle_local_change-Ends, added-of, uploaded-of, erased-of,
}
use gd_client.Engine.Poll.Rules.{Stays, poll_remote_changes-Keeps}
use gd_client.Engine.Folder.{
  Wake, local_wake, tick, owner, root_folder_id, ensure_page_token, keep_token, start_watching,
  after_pull, after_local, after_poll, prepare, after_prepare, wake, wakes, wake_then, run_folder,
}
use gd_client.Engine.Life.{Respects, Keeps-drive, initial_pull-Keeps, DriveFile}

-- The state, if there is one.
abbrev pub IfEnded : (R : Remote) (H : Host) → (R.World → Type 0) → Option (Site R H) → Type 0
IfEnded R H P none = Unit
IfEnded R H P (some s) = P s.drive

module _ (R : Remote) (H : Host) (P : R.World → Type 0) (k : Respects R P) (folder : SyncFolder)
    (run : FolderRun) where
  abbrev Q : Site R H → Type 0
  Q s = P s.drive

  worker-Settles :
      (rel_path : PathBuf)
      → Settles R H folder (root_folder_id folder) (owner R H folder run) run rel_path Q Q (λ r. Q)
  unfolding record_state
  worker-Settles rel_path = record {
    weaken = λ s p. p;
    failed = λ s e p. p;
    skipped = λ s p. p;
    done = λ s p. p;
    asked = λ s d p. p;
    looked = λ rel s p. p;
    cleared = λ s p. p;
    at_work = λ s p. p;
    added =
        added-of R H folder (root_folder_id folder) (owner R H folder run) run rel_path Q Q (λ r. Q)
          (λ s e p. p) (λ name parent_id s p. k.create_folder name parent_id s.drive p) recorded;
    uploaded =
        uploaded-of R H folder (root_folder_id folder) (owner R H folder run) run rel_path Q Q
          (λ r. Q) (λ s e p. p)
          (λ id name parent_id content s p. k.upload_file id name parent_id content s.drive p)
          recorded;
    erased =
        erased-of R H folder (root_folder_id folder) (owner R H folder run) run rel_path Q Q
          (λ r. Q) (λ s e p. p) (λ s p. p) (λ s p. p) (λ s p. p)
          (λ id s p. k.delete_file id s.drive p)
          (Keeps-bind Q (on_db R H (remove_file_state folder.id _)) _ (λ s p. p) (λ v s p. p));
  }
    where
      recorded :
          (remote : DriveFile) (is_folder : Bool)
          → Keeps Q
              (record_state R H folder.id (rel_text rel_path) remote is_folder >>= λ v. pure true)
      recorded remote is_folder =
          Keeps-bind Q (record_state R H folder.id _ remote is_folder) _ (λ s p. p) (λ v s p. p)

  worker-Stays : Stays R H folder (owner R H folder run) run Q
  unfolding record_state
  worker-Stays = record {
    downloaded = λ id s p. k.download_file id s.drive p;
    listed = λ token s p. k.list_changes token s.drive p;
    disk = λ s d p. p;
    at_work = λ s p. p;
    sent = λ s e p. p;
    found = λ id s p. p;
    recorded = λ rel remote is_folder s p. p;
    forgotten = λ rel s p. p;
  }

  wake-IfEnded : (w : Wake) (s : Site R H) → Q s → IfEnded R H P (wake R H folder run w s)
  unfolding wake
  wake-IfEnded (local_wake change) s p = after _ (
      handle_local_change-Ends R H folder (root_folder_id folder) (owner R H folder run) run change
        (worker-Settles _) s p)
    where
      after :
          (r : Result SyncError Bool × Site R H) → Q r.1 → Q (after_local R H folder run change r)
      after (ok false, t) q = q
      after (ok true, t) q = q
      after (err e, t) q = q
  wake-IfEnded tick s p = after _ (
      poll_remote_changes-Keeps R H folder (owner R H folder run) run worker-Stays (λ t q. q)
        (λ token t q. q) s p)
    where
      after :
          (r : Result SyncError (Option Unit) × Site R H)
          → Q r.1
          → IfEnded R H P (after_poll R H folder run r)
      after (ok none, t) q = tt
      after (ok (some u), t) q = q
      after (err e, t) q = q

  wakes-IfEnded : (ws : List Wake) (s : Site R H) → Q s → IfEnded R H P (wakes R H folder run ws s)
  unfolding wakes
  wakes-IfEnded [] s p = p
  wakes-IfEnded (w ∷ ws) s p =
      next (wakes-IfEnded ws) (wake R H folder run w s) (wake-IfEnded w s p)
    where
      next :
          ((t : Site R H) → Q t → IfEnded R H P (wakes R H folder run ws t))
          → (o : Option (Site R H)) → IfEnded R H P o
          → IfEnded R H P (wake_then R H folder run (wakes R H folder run ws) o)
      next rest none q = tt
      next rest (some t) q = rest t q

  ensure_page_token-Keeps : Keeps Q (ensure_page_token R H folder run)
  unfolding ensure_page_token
  ensure_page_token-Keeps = Keeps-bind Q (on_db R H (get_page_token folder.id)) _ (λ s p. p) keep
    where
      keep : (token : Option String) → Keeps Q (keep_token R H folder run token)
      keep (some token) = λ s p. p
      keep none =
          Keeps-drive R H P k R.get_start_page_token _ k.get_start_page_token (λ token s p. p)

  -- The end of the preparation.
  abbrev ready : Work R H (Option Unit)
  ready = do
    start_watching R H folder run
    on_status R H (finish run "initial sync" (ok tt))
    pure (some tt)

  -- The pull, and what follows it.
  abbrev pulling : ℕ → Work R H (Option Unit)
  pulling fuel = do
    synced ← initial_pull R H folder (owner R H folder run) fuel (root_folder_id folder) ""
    after_pull R H folder run synced

  prepare-Keeps : (fuel : ℕ) → Keeps Q (prepare R H folder run fuel)
  unfolding prepare
  prepare-Keeps fuel =
      Keeps-bind Q (send_event R H (folder_started folder.id))
        (λ u. on_disk R H (H.create_dir_all folder.local_path) >> pulling fuel) (λ s p. p)
        (λ u.
          Keeps-bind Q (on_disk R H (H.create_dir_all folder.local_path)) (λ v. pulling fuel)
            (λ s p. p)
            (λ v.
              Keeps-bind Q
                (initial_pull R H folder (owner R H folder run) fuel (root_folder_id folder) "")
                (after_pull R H folder run)
                (initial_pull-Keeps R H P k folder (owner R H folder run) fuel
                  (root_folder_id folder) "")
                pulled))
    where
      pulled : (synced : Option ℕ) → Keeps Q (after_pull R H folder run synced)
      pulled none = λ s p. p
      pulled (some synced) =
          Keeps-bind Q (send_event R H (initial_sync_complete folder.id synced))
            (λ u. ensure_page_token R H folder run >> ready) (λ s p. p)
            (λ u.
              Keeps-bind Q (ensure_page_token R H folder run) (λ v. ready) ensure_page_token-Keeps
                (λ v. Keeps-bind Q (start_watching R H folder run) _ (λ s p. p) (λ x s p. p)))

  -- What each method keeps, the task of a folder keeps.
  pub run_folder-IfEnded :
      (fuel : ℕ) (ws : List Wake) (s : Site R H)
      → Q s
      → IfEnded R H P (run_folder R H folder run fuel ws s)
  unfolding run_folder
  run_folder-IfEnded fuel ws s p = after (prepare R H folder run fuel s) (prepare-Keeps fuel s p)
    where
      after :
          (r : Result SyncError (Option Unit) × Site R H)
          → Q r.1
          → IfEnded R H P (after_prepare R H folder run ws r)
      after (ok none, t) q = tt
      after (ok (some u), t) q = wakes-IfEnded ws t q
      after (err e, t) q = q
