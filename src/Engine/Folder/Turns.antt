-- ===== src/Engine/Folder/Turns.antt =====
-- What a turn of the loop of `run_folder` (engine.rs) leaves in the status of its folder.
pub mod Reports
use gd_client.Prelude.{
  arith, String, Bool, true, false, Option, none, some, List, [], ◌∷◌, Result, ok, err, ◌≡◌, ◌∙◌,
  ◌⊎◌, inl, inr, ap, Option-cases, refl, subst, sym, if◌then◌else◌,
}
use gd_client.Prelude.Keys.{nat_ord, string_ord, compare_string_iff}
use gd_client.Prelude.BTreeMap.{BTreeMap, get, get-remove, same}
use gd_client.Common.Errors.{SyncError, error_to_string}
use gd_client.Common.Config.{SyncFolder}
use gd_client.Common.Paths.{strip_prefix}
use gd_client.Effects.{continue, pure}
use gd_client.SyncStatus.{
  FolderRun, FolderStatus, StatusTracker, active, clear_error, finish, run_update, active_folder,
  clear_error_folder,
}
use gd_client.SyncStatus.Effects.{run_update_current, finish-Finished, outcome}
use gd_client.Engine.Site.{Remote, Host, Site, SyncEvent, error_event}
use gd_client.Engine.Watcher.{LocalChange}
use gd_client.Engine.Local.{path_or}
use gd_client.Engine.Local.Rules.{
  Settles, handle_local_change-Ends, added-of, uploaded-of, erased-of,
}
use gd_client.Engine.Poll.Rules.{Stays, poll_remote_changes-Keeps}
use gd_client.Engine.Pull.{record_state}
use gd_client.Engine.Folder.{
  Wake, local_wake, tick, wake, wakes, work_of, root_folder_id, owner, after_local, after_poll,
  wake_then,
}
use gd_client.Engine.Folder.Turns.Reports.{
  Shows, same_refl, Others, Quiet, active-Others, clear_error-Quiet, finish-Others,
}

-- The key of a turn's work in the errors of its folder.
abbrev pub key_of : SyncFolder → Wake → String
key_of folder (local_wake change) = work_of folder change
key_of folder tick = "remote changes"

module _ (run : FolderRun) where
  module _ (folder : SyncFolder) (key : String) (errors : BTreeMap String String) where
    -- The work's own error: gone, or as before, or the one that the newest event tells.
    abbrev Told : Option String → List SyncEvent → Type 0
    Told own events =
        (own ≡ none)
        ⊎ (own ≡ get key errors)
        ⊎ ((e : String) × (old : List SyncEvent) × (own ≡ some e)
            × (events ≡ error_event folder.id e ∷ old))

    -- The folder after a turn: idle, with the errors of all other work.
    pub record Turned (t : StatusTracker) (events : List SyncEvent) : Type 0 where
      pub status : FolderStatus
      pub found : get run.id t.state.folders ≡ some status
      pub generation : status.generation ≡ run.generation
      pub idle : status.syncing ≡ false
      pub others : (w : String) → same key w ≡ false → get w status.errors ≡ get w errors
      pub own : Told (get key status.errors) events

    finish-Turned :
        (r : Result String Unit) (t : StatusTracker) (events : List SyncEvent)
        → Told (outcome r) events
        → Shows run (Others run key errors) t
        → Turned (finish run key r t) events
    finish-Turned r t events told h =
        let (u, found, g, q) = finish-Others run key errors r t h in
        record {
          status = u;
          found = found;
          generation = g;
          idle = q.1;
          others = q.0;
          own = subst (λ o. Told o events) (sym q.2) told;
        }

    Quiet-Turned :
        (t : StatusTracker) (events : List SyncEvent)
        → Shows run (Quiet run key errors) t
        → Turned t events
    Quiet-Turned t events (u, found, g, q) = record {
      status = u;
      found = found;
      generation = g;
      idle = q.1;
      others = q.0;
      own = own_of q.2;
    }
      where
        own_of :
            (get key u.errors ≡ none) ⊎ (get key u.errors ≡ get key errors)
            → Told (get key u.errors) events
        own_of (inl gone) = inl gone
        own_of (inr kept) = inr (inl kept)

module _ (R : Remote) (H : Host) (folder : SyncFolder) (run : FolderRun)
    (errors : BTreeMap String String) where
  module _ (key : String) where
    abbrev Busy : Site R H → Type 0
    Busy s = Shows run (Others run key errors) s.status

    abbrev Resting : Site R H → Type 0
    Resting s = Shows run (Quiet run key errors) s.status

    abbrev LocalEnd : Result SyncError Bool → Site R H → Type 0
    LocalEnd (ok false) s = Resting s
    LocalEnd (ok true) s = Busy s
    LocalEnd (err e) s = Busy s

    Busy-Stays : Stays R H folder (owner R H folder run) run Busy
    unfolding record_state
    Busy-Stays = record {
      downloaded = λ id s p. p;
      listed = λ token s p. p;
      disk = λ s d p. p;
      at_work = λ s p. active-Others run key errors s.status p;
      sent = λ s e p. p;
      found = λ id s p. p;
      recorded = λ rel remote is_folder s p. p;
      forgotten = λ rel s p. p;
    }

  local-Settles :
      (change : LocalChange)
      → Settles R H folder
          (root_folder_id folder)
          (owner R H folder run)
          run
          (path_or (strip_prefix change.path folder.local_path) change.path)
          (Resting (work_of folder change))
          (Busy (work_of folder change))
          (LocalEnd (work_of folder change))
  unfolding record_state
  local-Settles change = record {
    weaken = λ s (f, found, g, q). (f, found, g, q.0);
    failed = λ s e p. p;
    skipped = λ s p. p;
    done = λ s (f, found, g, q). (f, found, g, q.0);
    asked = λ s d p. p;
    looked = λ rel s p. p;
    cleared = λ s p. clear_error-Quiet run (work_of folder change) errors s.status p;
    at_work = λ s (f, found, g, q).
        active-Others run (work_of folder change) errors s.status (f, found, g, q.0);
    added =
        added-of R H folder (root_folder_id folder) (owner R H folder run) run
          (path_or (strip_prefix change.path folder.local_path) change.path)
          (Resting (work_of folder change)) (Busy (work_of folder change))
          (LocalEnd (work_of folder change)) (λ s e p. p) (λ name parent_id s p. p)
          (λ remote is_folder s p. written s _ _ p);
    uploaded =
        uploaded-of R H folder (root_folder_id folder) (owner R H folder run) run
          (path_or (strip_prefix change.path folder.local_path) change.path)
          (Resting (work_of folder change)) (Busy (work_of folder change))
          (LocalEnd (work_of folder change)) (λ s e p. p) (λ id name parent_id content s p. p)
          (λ remote is_folder s p. written s _ _ p);
    erased =
        erased-of R H folder (root_folder_id folder) (owner R H folder run) run
          (path_or (strip_prefix change.path folder.local_path) change.path)
          (Resting (work_of folder change)) (Busy (work_of folder change))
          (LocalEnd (work_of folder change)) (λ s e p. p) (λ s (f, found, g, q). (f, found, g, q.0))
          (λ s p. p) (λ s p. active-Others run (work_of folder change) errors s.status p)
          (λ id s p. p) (λ s p. written s _ _ p);
  }
    where
      written :
          (s : Site R H) (r : Result SyncError Unit) (db : _)
          → Busy (work_of folder change) s
          → LocalEnd
              (work_of folder change)
              (continue r (λ v. pure true) (record s { db = db })).0
              (continue r (λ v. pure true) (record s { db = db })).1
      written s (ok u) db p = p
      written s (err e) db p = p

  abbrev MaybeTurned : Wake → Option (Site R H) → Type 0
  MaybeTurned w none = Unit
  MaybeTurned w (some t) = Turned run folder (key_of folder w) errors t.status t.events

  after_local-Turned :
      (change : LocalChange) (r : Result SyncError Bool) (s : Site R H)
      → LocalEnd (work_of folder change) r s
      → MaybeTurned (local_wake change) (some (after_local R H folder run change (r, s)))
  after_local-Turned change (ok false) s h =
      Quiet-Turned run folder (work_of folder change) errors s.status s.events h
  after_local-Turned change (ok true) s h =
      finish-Turned run folder (work_of folder change) errors (ok tt) s.status _ (inl refl) h
  after_local-Turned change (err e) s h =
      finish-Turned run folder (work_of folder change) errors (err (error_to_string e)) s.status _
        (inr (inr (error_to_string e, s.events, refl, refl))) h

  after_poll-Turned :
      (r : Result SyncError (Option Unit)) (s : Site R H)
      → Busy "remote changes" s
      → MaybeTurned tick (after_poll R H folder run (r, s))
  after_poll-Turned (ok none) s h = tt
  after_poll-Turned (ok (some u)) s h =
      finish-Turned run folder "remote changes" errors (ok tt) s.status _ (inl refl) h
  after_poll-Turned (err e) s h =
      finish-Turned run folder "remote changes" errors (err (error_to_string e)) s.status _
        (inr (inr (error_to_string e, s.events, refl, refl))) h

  wake-MaybeTurned :
      (w : Wake) (s : Site R H)
      → Shows run (λ f. (f.syncing ≡ false) × (f.errors ≡ errors)) s.status
      → MaybeTurned w (wake R H folder run w s)
  unfolding wake
  wake-MaybeTurned (local_wake change) s (f, found, g, (idle, same_errors)) =
      after_local-Turned change _ _ (
        handle_local_change-Ends R H folder (root_folder_id folder) (owner R H folder run) run
          change (local-Settles change) s
          (
            f,
            found,
            g,
            (
              λ w ne. ap (get w) same_errors,
              idle,
              inr (ap (get (work_of folder change)) same_errors),
            ),
          ))
  wake-MaybeTurned tick s (f, found, g, (idle, same_errors)) = after_poll-Turned _ _ (
      poll_remote_changes-Keeps R H folder (owner R H folder run) run (Busy-Stays "remote changes")
        (λ s p. p) (λ token s p. p) s (f, found, g, λ w ne. ap (get w) same_errors))

-- A turn of the loop of a run that owns its folder, from the idle folder `f`, leaves the folder idle and
-- the run's, if it ends. The errors of all other work are the ones from before. The error of the turn's own
-- work is gone, or the one from before, or the one that the newest event reports.
pub wake-Turned :
    (R : Remote) (H : Host) (folder : SyncFolder) (run : FolderRun) (w : Wake) (s t : Site R H)
    (f : FolderStatus)
    → get run.id s.status.state.folders ≡ some f
    → f.generation ≡ run.generation
    → f.syncing ≡ false
    → wake R H folder run w s ≡ some t
    → Turned run folder (key_of folder w) f.errors t.status t.events
wake-Turned R H folder run w s t f found g idle e =
    subst (MaybeTurned R H folder run f.errors w) e
      (wake-MaybeTurned R H folder run f.errors w s (f, found, g, (idle, refl)))

-- After any turns of the loop of a run that owns its folder, in any order, the folder is idle and
-- still the run's, if it was before and they end.
wakes-idle :
    (R : Remote) (H : Host) (folder : SyncFolder) (run : FolderRun) (ws : List Wake)
    (s t : Site R H) (f : FolderStatus)
    → get run.id s.status.state.folders ≡ some f
    → f.generation ≡ run.generation
    → f.syncing ≡ false
    → wakes R H folder run ws s ≡ some t
    → (u : FolderStatus) × (get run.id t.status.state.folders ≡ some u)
      × (u.generation ≡ run.generation)
      × (u.syncing ≡ false)
unfolding wakes
wakes-idle R H folder run [] s t f found g idle e =
    let kept : s ≡ t = cc in
    (f, ap (λ (v : Site R H). get run.id v.status.state.folders) (sym kept) ∙ found, g, idle)
wakes-idle R H folder run (w ∷ ws) s t f found g idle e =
    elim (Option-cases (wake R H folder run w s)) [
      | inl ended ↦ cc
      | inr (v, ended) ↦
          let turned = wake-Turned R H folder run w s v f found g idle ended in
          wakes-idle R H folder run ws v t turned.status turned.found turned.generation turned.idle
            (sym (ap (wake_then R H folder run (wakes R H folder run ws)) ended) ∙ e)
    ]
