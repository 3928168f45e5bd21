-- ===== src/Ui/Progress.antt =====
-- No flag of `SyncManager` in crates/gdrive-ui/src/cxxqt_object.rs stays set for good.
use gd_client.Prelude.{
  ℕ, suc, String, Bool, true, false, Option, some, List, [], ◌∷◌, Result, ok, err, ◌≡◌, inl, inr,
  refl, ap, if-cases, if◌then◌else◌,
}
use gd_client.Ui.Requests.{PendingRequest}
use gd_client.Ui.Window.{
  Window, new_window, Response, SyncFolderView, DriveFolderView, Completion, refresh_done,
  mutation_done, browse_done, dark_mode_done, Task, set, dispatch, spawn, cancel_snapshot,
}
use gd_client.Ui.Actions.{refresh, begin_refresh, refresh_started}
use gd_client.Ui.Completions.{
  UiOp, answer_op, ui_op, ui_ops, complete, complete_refresh, complete_mutation, complete_browse,
  pick, put_back, show_found, show_drive_folders, found, mutated,
}
use gd_client.Ui.Waiting.{AnyTask, IsRefresh, IsBrowse, IsMutation, Flags, Waits}
use gd_client.Ui.Live.{
  finish-cases, flags-show_found, flags-show_drive_folders, new_window-Waits, ui_ops-Waits,
}

pick-AnyTask :
    (P : Task → Type 0) (ts : List Task)
    → AnyTask P ts
    → (n : ℕ) × (t : Task) × (us : List Task) × (pick n ts ≡ some (t, us)) × P t
pick-AnyTask P [] a = absurd a
pick-AnyTask P (t ∷ ts) (inl p) = (0, t, ts, refl, p)
pick-AnyTask P (t ∷ ts) (inr a) =
    let (n, u, us, found, p) = pick-AnyTask P ts a in (suc n, u, t ∷ us, ap (put_back t) found, p)

busy-refresh_started :
    (r : Result String ℕ) (w : Window) → (refresh_started (r, w)).manager.busy ≡ w.manager.busy
unfolding set
busy-refresh_started (ok h) w = refl
busy-refresh_started (err e) w = refl

busy-refresh : (w : Window) → (refresh w).manager.busy ≡ w.manager.busy
unfolding refresh begin_refresh set cancel_snapshot dispatch spawn
busy-refresh w =
    if-cases (λ (v : Window). v.manager.busy ≡ w.manager.busy) _ _ _ refl (busy-refresh_started _ _)

module _ (encode_folders : List SyncFolderView → Result String String)
    (encode_drive_folders : List DriveFolderView → Result String String)
    (nat_text : ℕ → String) where
  -- A task whose handle the request holds, and any answer to it clears the flag.
  abbrev pub Clears : (Window → PendingRequest) → (Window → Bool) → Window → Type 0
  Clears request flag w =
      (n : ℕ) × (t : Task) × (us : List Task) × (pick n w.tasks ≡ some (t, us))
      × ((request w).handle ≡ some t.handle)
      × ((r : Result String Response)
          → flag (ui_op encode_folders encode_drive_folders nat_text (answer_op n r) w) ≡ false)

  -- What is under way can end, and an operation and a refresh are never both under way.
  pub record Progress (w : Window) : Type 0 where
    pub busy : w.manager.busy ≡ true → Clears (λ v. v.manager.mutation) (λ v. v.manager.busy) w
    pub refreshing :
        w.manager.refreshing ≡ true → Clears (λ v. v.manager.snapshot) (λ v. v.manager.refreshing) w
    pub loading :
        w.manager.drive_folders_loading ≡ true
        → Clears (λ v. v.manager.browse) (λ v. v.manager.drive_folders_loading) w
    pub exclusive : w.manager.busy ≡ true → w.manager.refreshing ≡ false

  mutation-cleared :
      (c : Completion) (r : Result String Response) (w : Window)
      → IsMutation w.manager.mutation.generation c
      → (complete encode_folders encode_drive_folders nat_text c r w).manager.busy ≡ false
  unfolding complete complete_mutation set
  mutation-cleared (refresh_done g revision) r w is = absurd is
  mutation-cleared (browse_done g) r w is = absurd is
  mutation-cleared dark_mode_done r w is = absurd is
  mutation-cleared (mutation_done g signing_in revision message) r w is =
      finish-cases
        (λ (f : Bool × PendingRequest).
          (if f.0
            then refresh (
                set (mutated signing_in revision message r)
                  (set (λ m. record m { mutation = f.1 }) w))
            else w).manager.busy
          ≡ false)
        g w.manager.mutation (busy-refresh _) λ stale. absurd (stale is)

  refresh-cleared :
      (c : Completion) (r : Result String Response) (w : Window)
      → IsRefresh w.manager.snapshot.generation c
      → (complete encode_folders encode_drive_folders nat_text c r w).manager.refreshing ≡ false
  unfolding complete complete_refresh set
  refresh-cleared (mutation_done g signing_in revision message) r w is = absurd is
  refresh-cleared (browse_done g) r w is = absurd is
  refresh-cleared dark_mode_done r w is = absurd is
  refresh-cleared (refresh_done g revision) r w is =
      finish-cases
        (λ (f : Bool × PendingRequest).
          (if f.0
            then set
                (show_found encode_folders encode_drive_folders nat_text revision
                  (found encode_folders encode_drive_folders nat_text r))
                (set (λ m. record m { snapshot = f.1; refreshing = false }) w)
            else w).manager.refreshing
          ≡ false)
        g w.manager.snapshot
        (ap (λ (f : Flags). f.refreshing)
          (flags-show_found encode_folders encode_drive_folders nat_text revision _ _))
        λ stale. absurd (stale is)

  browse-cleared :
      (c : Completion) (r : Result String Response) (w : Window)
      → IsBrowse w.manager.browse.generation c
      → (complete encode_folders encode_drive_folders nat_text c r w).manager.drive_folders_loading
        ≡ false
  unfolding complete complete_browse set
  browse-cleared (mutation_done g signing_in revision message) r w is = absurd is
  browse-cleared (refresh_done g revision) r w is = absurd is
  browse-cleared dark_mode_done r w is = absurd is
  browse-cleared (browse_done g) r w is =
      finish-cases
        (λ (f : Bool × PendingRequest).
          (if f.0
            then set (show_drive_folders encode_folders encode_drive_folders nat_text r)
                (set (λ m. record m { browse = f.1 }) w)
            else w).manager.drive_folders_loading
          ≡ false)
        g w.manager.browse
        (ap (λ (f : Flags). f.loading)
          (flags-show_drive_folders encode_folders encode_drive_folders nat_text r _))
        λ stale. absurd (stale is)

  Waits-Progress : (w : Window) → Waits w → Progress w
  unfolding ui_op
  Waits-Progress w h = record {
    busy = λ e.
        let (n, t, us, found, s) = pick-AnyTask _ w.tasks (h.busy e) in
        (
          n,
          t,
          us,
          found,
          s.1,
          λ r. rw (found) (mutation-cleared t.complete r (record w { tasks = us }) s.0),
        );
    refreshing = λ e.
        let (n, t, us, found, s) = pick-AnyTask _ w.tasks (h.refreshing e) in
        (
          n,
          t,
          us,
          found,
          s.1,
          λ r. rw (found) (refresh-cleared t.complete r (record w { tasks = us }) s.0),
        );
    loading = λ e.
        let (n, t, us, found, s) = pick-AnyTask _ w.tasks (h.loading e) in
        (
          n,
          t,
          us,
          found,
          s.1,
          λ r. rw (found) (browse-cleared t.complete r (record w { tasks = us }) s.0),
        );
    exclusive = h.exclusive;
  }

  -- Whatever the user does and whatever the daemon, the subscriptions and the worker threads answer, in
  -- any order: while the window is busy, refreshing or loading Drive folders, a task is under way whose
  -- handle the request still holds, and any answer to it, an error too, clears the flag. An operation and a
  -- refresh are never both under way.
  pub ui_ops-Progress :
      (runtime : Option String) (ops : List UiOp)
      → Progress (ui_ops encode_folders encode_drive_folders nat_text ops (new_window runtime))
  ui_ops-Progress runtime ops = Waits-Progress _ (
      ui_ops-Waits encode_folders encode_drive_folders nat_text ops (new_window runtime)
        (new_window-Waits runtime))
