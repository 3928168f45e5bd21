-- ===== src/Ui/OneOperation.antt =====
-- How many operations `SyncManager` of crates/gdrive-ui/src/cxxqt_object.rs has under way.
pub mod Count
use gd_client.Prelude.{
  arith, ℕ, zero, suc, String, Bool, true, false, ◌≤◌, ◌||◌, Option, none, some, List, [], ◌∷◌,
  Result, ok, err, ◌≡◌, ◌⊎◌, inl, inr, refl, ap, sym, subst, ◌∙◌, if-cases, if-split, if◌then◌else◌,
}
use gd_client.Ui.Requests.{PendingRequest}
use gd_client.Ui.Window.{
  Window, new_window, Request, dark_mode_request, Response, snapshot_response, done_response,
  drive_folders_response, dark_mode_response, SyncFolderView, DriveFolderView, Completion,
  refresh_done, mutation_done, browse_done, dark_mode_done, Task, set, add_task, spawn, dispatch,
  cancel_snapshot, cancel_mutation, cancel_browse,
}
use gd_client.Ui.Actions.{
  refresh, begin_refresh, mutate, begin_mutation, at_work, loading, sign_in, sign_out, add_folder,
  remove_folder, set_folder_enabled, list_drive_folders, cancel_drive_folders, on_sync_status,
  on_authentication, initialize, SyncStatusEvent, AuthenticationEvent, snapshot_event,
  unavailable_event, ready, changed, refresh_started, mutation_started, browse_started,
  portal_started, status_watch_started, authentication_watch_started,
}
use gd_client.Ui.Completions.{
  UiOp, initialize_op, refresh_op, sign_in_op, sign_out_op, cancel_drive_folders_op, add_folder_op,
  remove_folder_op, list_drive_folders_op, set_folder_enabled_op, sync_status_op, authentication_op,
  answer_op, ui_op, ui_ops, answer, complete, complete_refresh, complete_mutation, complete_browse,
  complete_dark_mode, pick, put_back, show_found, show_drive_folders, found, mutated,
}
use gd_client.Ui.Waiting.{AnyTask, IsMutation, Serves, Flags, Waits}
use gd_client.Ui.Live.{
  Taken, pick-Taken, new_window-Waits, finish-cases, flags-show_found, flags-show_drive_folders,
  ui_op-Waits,
}
use gd_client.Ui.OneOperation.Count.{
  count_one, operations, one_if, AtMost, refresh-AtMost, mutate-AtMost, list_drive_folders-AtMost,
  on_sync_status-AtMost, on_authentication-AtMost, initialize-AtMost,
}

-- Of the tasks, one was picked.
abbrev Parted : List Task → Option (Task × List Task) → Type 0
Parted ts none = Unit
Parted ts (some (u, us)) = operations ts ≡ count_one u.complete (operations us)

count_one-swap :
    (a b : Completion) (n : ℕ) → count_one a (count_one b n) ≡ count_one b (count_one a n)
count_one-swap (refresh_done _ _) b n = refl
count_one-swap (browse_done _) b n = refl
count_one-swap dark_mode_done b n = refl
count_one-swap (mutation_done _ _ _ _) (refresh_done _ _) n = refl
count_one-swap (mutation_done _ _ _ _) (browse_done _) n = refl
count_one-swap (mutation_done _ _ _ _) dark_mode_done n = refl
count_one-swap (mutation_done _ _ _ _) (mutation_done _ _ _ _) n = refl

pick-Parted : (n : ℕ) (ts : List Task) → Parted ts (pick n ts)
pick-Parted n [] = tt
pick-Parted zero (t ∷ ts) = refl
pick-Parted (suc n) (t ∷ ts) = back (pick n ts) (pick-Parted n ts)
  where
    back : (o : Option (Task × List Task)) → Parted ts o → Parted (t ∷ ts) (put_back t o)
    back none h = tt
    back (some (u, us)) h =
        ap (count_one t.complete) h ∙ count_one-swap t.complete u.complete (operations us)

alone : (b : Bool) (n : ℕ) → suc n ≤ one_if b → (b ≡ true) × (n ≡ 0)
alone true n few = (refl, omega arith)
alone false n few = absurd (omega arith)

AnyTask-operations :
    (p : PendingRequest) (ts : List Task) → AnyTask (Serves IsMutation p) ts → 1 ≤ operations ts
AnyTask-operations p [] a = absurd a
AnyTask-operations p (t ∷ ts) (inl s) = here t.complete (operations ts) s.0
  where
    here : (c : Completion) (n : ℕ) → IsMutation p.generation c → 1 ≤ count_one c n
    here (mutation_done _ _ _ _) n is = omega arith
    here (refresh_done _ _) n is = absurd is
    here (browse_done _) n is = absurd is
    here dark_mode_done n is = absurd is
AnyTask-operations p (t ∷ ts) (inr a) = more t.complete (operations ts) (AnyTask-operations p ts a)
  where
    more : (c : Completion) (n : ℕ) → 1 ≤ n → 1 ≤ count_one c n
    more (mutation_done _ _ _ _) n h = omega arith
    more (refresh_done _ _) n h = h
    more (browse_done _) n h = h
    more dark_mode_done n h = h

module _ (encode_folders : List SyncFolderView → Result String String)
    (encode_drive_folders : List DriveFolderView → Result String String)
    (nat_text : ℕ → String) where
  complete_dark_mode-AtMost :
      (r : Result String Response) (w : Window) → AtMost w → AtMost (complete_dark_mode r w)
  unfolding complete_dark_mode set
  complete_dark_mode-AtMost (err e) w h = h
  complete_dark_mode-AtMost (ok done_response) w h = h
  complete_dark_mode-AtMost (ok (snapshot_response rows a)) w h = h
  complete_dark_mode-AtMost (ok (dark_mode_response b)) w h = h
  complete_dark_mode-AtMost (ok (drive_folders_response rows)) w h = h

  complete-AtMost :
      (c : Completion) (r : Result String Response) (w : Window)
      → count_one c (operations w.tasks) ≤ one_if w.manager.busy
      → (w.manager.busy ≡ true
          → IsMutation w.manager.mutation.generation c
            ⊎ AnyTask (Serves IsMutation w.manager.mutation) w.tasks)
      → AtMost (complete encode_folders encode_drive_folders nat_text c r w)
  unfolding complete complete_refresh complete_browse complete_mutation set
  complete-AtMost (refresh_done g revision) r w few awaited =
      finish-cases
        (λ (f : Bool × PendingRequest). AtMost (
          if f.0
          then set
              (show_found encode_folders encode_drive_folders nat_text revision
                (found encode_folders encode_drive_folders nat_text r))
              (set (λ m. record m { snapshot = f.1; refreshing = false }) w)
          else w))
        g w.manager.snapshot
        (subst (λ (f : Flags). operations w.tasks ≤ one_if f.busy)
          (sym (flags-show_found encode_folders encode_drive_folders nat_text revision _ _)) few)
        λ stale. few
  complete-AtMost (browse_done g) r w few awaited =
      finish-cases
        (λ (f : Bool × PendingRequest). AtMost (
          if f.0
          then set (show_drive_folders encode_folders encode_drive_folders nat_text r)
              (set (λ m. record m { browse = f.1 }) w)
          else w))
        g w.manager.browse
        (subst (λ (f : Flags). operations w.tasks ≤ one_if f.busy)
          (sym (flags-show_drive_folders encode_folders encode_drive_folders nat_text r _)) few)
        λ stale. few
  complete-AtMost dark_mode_done r w few awaited = complete_dark_mode-AtMost r w few
  complete-AtMost (mutation_done g signing_in revision message) r w few awaited =
      let (busy, no_others) = alone w.manager.busy (operations w.tasks) few in
      finish-cases
        (λ (f : Bool × PendingRequest). AtMost (
          if f.0
          then refresh (
              set (mutated signing_in revision message r)
                (set (λ m. record m { mutation = f.1 }) w))
          else w))
        g w.manager.mutation (refresh-AtMost _ (subst (λ n. n ≤ 0) (sym no_others) (omega arith)))
        λ stale. elim (awaited busy) [
          | inl current ↦ absurd (stale current)
          | inr others ↦
              let some_other = AnyTask-operations w.manager.mutation w.tasks others in
              absurd (omega arith)
        ]

  answer-AtMost :
      (r : Result String Response) (w : Window) (o : Option (Task × List Task))
      → Taken w.tasks o
      → Parted w.tasks o
      → Waits w
      → AtMost w
      → AtMost (answer encode_folders encode_drive_folders nat_text r w o)
  answer-AtMost r w none taken parted h few = few
  answer-AtMost r w (some (t, us)) taken parted h few =
      complete-AtMost t.complete r (record w { tasks = us })
        (subst (λ n. n ≤ one_if w.manager.busy) parted few)
        λ e. elim (taken _ (h.busy e)) [ inl s ↦ inl s.0 | inr a ↦ inr a ]

  ui_op-AtMost :
      (op : UiOp) (w : Window)
      → Waits w
      → AtMost w
      → AtMost (ui_op encode_folders encode_drive_folders nat_text op w)
  unfolding ui_op sign_in sign_out add_folder remove_folder set_folder_enabled cancel_drive_folders
      set cancel_browse
  ui_op-AtMost initialize_op w h few = initialize-AtMost w few
  ui_op-AtMost refresh_op w h few = refresh-AtMost w few
  ui_op-AtMost sign_in_op w h few = mutate-AtMost _ _ w few
  ui_op-AtMost sign_out_op w h few = mutate-AtMost _ _ w few
  ui_op-AtMost cancel_drive_folders_op w h few = few
  ui_op-AtMost (add_folder_op form) w h few = mutate-AtMost _ _ w few
  ui_op-AtMost (remove_folder_op id) w h few = mutate-AtMost _ _ w few
  ui_op-AtMost (list_drive_folders_op id) w h few = list_drive_folders-AtMost id w few
  ui_op-AtMost (set_folder_enabled_op id enabled) w h few = mutate-AtMost _ _ w few
  ui_op-AtMost (sync_status_op event) w h few = on_sync_status-AtMost event w few
  ui_op-AtMost (authentication_op event) w h few = on_authentication-AtMost event w few
  ui_op-AtMost (answer_op n r) w h few =
      answer-AtMost r w (pick n w.tasks) (pick-Taken n w.tasks) (pick-Parted n w.tasks) h few

  ui_ops-AtMost :
      (ops : List UiOp) (w : Window)
      → Waits w
      → AtMost w
      → AtMost (ui_ops encode_folders encode_drive_folders nat_text ops w)
  unfolding ui_ops
  ui_ops-AtMost [] w h few = few
  ui_ops-AtMost (op ∷ ops) w h few =
      ui_ops-AtMost ops _ (ui_op-Waits encode_folders encode_drive_folders nat_text op w h)
        (ui_op-AtMost op w h few)

  -- Whatever happens to the window: at most one of the tasks that were started and not answered is an
  -- operation (adding, removing or switching a folder, signing in or out), and none is while the window is
  -- not busy.
  pub one_operation :
      (runtime : Option String) (ops : List UiOp)
      → (operations
            (ui_ops encode_folders encode_drive_folders nat_text ops (new_window runtime)).tasks
          ≤ 1)
        × ((ui_ops encode_folders encode_drive_folders nat_text ops
                (new_window runtime)).manager.busy
              ≡ false
            → operations
                (ui_ops encode_folders encode_drive_folders nat_text ops (new_window runtime)).tasks
              ≡ 0)
  one_operation runtime ops =
      bounds _ _ (ui_ops-AtMost ops (new_window runtime) (new_window-Waits runtime) (omega arith))
    where
      bounds : (b : Bool) (n : ℕ) → n ≤ one_if b → (n ≤ 1) × (b ≡ false → n ≡ 0)
      bounds true n few = (few, λ e. absurd (cc))
      bounds false n few = (omega arith, λ e. omega arith)
