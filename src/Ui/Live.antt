-- ===== src/Ui/Live.antt =====
-- Every answer that `SyncManager` of crates/gdrive-ui/src/cxxqt_object.rs waits for can still come.
use gd_client.Prelude.{
  arith, ℕ, zero, suc, String, Bool, true, false, ◌==◌, Option, none, some, List, [], ◌∷◌, Result,
  ok, err, ◌≡◌, ◌≢◌, ◌⊎◌, inl, inr, refl, subst, sym, if-cases, if-split, if◌then◌else◌,
}
use gd_client.Ui.Requests.{PendingRequest, finish}
use gd_client.Ui.Window.{
  Window, new_window, SyncManager, Response, snapshot_response, done_response,
  drive_folders_response, dark_mode_response, SyncFolderView, DriveFolderView, Completion,
  refresh_done, mutation_done, browse_done, dark_mode_done, Task, set,
}
use gd_client.Ui.Actions.{refresh, sign_in, sign_out, add_folder, remove_folder, set_folder_enabled}
use gd_client.Ui.Completions.{
  UiOp, initialize_op, refresh_op, sign_in_op, sign_out_op, cancel_drive_folders_op, add_folder_op,
  remove_folder_op, list_drive_folders_op, set_folder_enabled_op, sync_status_op, authentication_op,
  answer_op, ui_op, ui_ops, answer, complete, complete_refresh, complete_mutation, complete_browse,
  complete_dark_mode, pick, put_back, Found, show_found, show_drive_folders, take_authentication,
  found, drive_folders, mutated,
}
use gd_client.Ui.Waiting.{
  AnyTask, IsRefresh, IsBrowse, IsMutation, Serves, Flags, flags_of, WaitsFor, Waits, refresh-Waits,
  mutate-Waits, list_drive_folders-Waits, cancel_drive_folders-Waits,
}
use gd_client.Ui.Waiting.Events.{on_sync_status-Waits, on_authentication-Waits, initialize-Waits}

-- A task that was picked, and the others: whatever was among the tasks is one of them.
abbrev pub Taken : List Task → Option (Task × List Task) → Type 1
Taken ts none = Unit
Taken ts (some (u, us)) = (P : Task → Type 0) → AnyTask P ts → P u ⊎ AnyTask P us

pub pick-Taken : (n : ℕ) (ts : List Task) → Taken ts (pick n ts)
pick-Taken n [] = tt
pick-Taken zero (t ∷ ts) = λ P a. a
pick-Taken (suc n) (t ∷ ts) = back (pick n ts) (pick-Taken n ts)
  where
    back : (o : Option (Task × List Task)) → Taken ts o → Taken (t ∷ ts) (put_back t o)
    back none h = tt
    back (some (u, us)) h = λ P a. elim a [
      | inl p ↦ inr (inl p)
      | inr b ↦ elim (h P b) [ inl p ↦ inl p | inr c ↦ inr (inr c) ]
    ]

-- The flag waited for the completion that runs, or waits for another task.
abbrev Left : (ℕ → Completion → Type 0) → Completion → Bool → PendingRequest → List Task → Type 0
Left Is c flag p tasks = flag ≡ true → Is p.generation c ⊎ AnyTask (Serves Is p) tasks

pub finish-cases :
    (P : Bool × PendingRequest → Type 0) (g : ℕ) (p : PendingRequest)
    → P (true, record p { handle = none })
    → (g ≢ p.generation → P (false, p))
    → P (finish g p)
unfolding finish
finish-cases P g p current stale =
    if-split P (g == p.generation) (true, record p { handle = none }) (false, p) (λ e. current)
      (λ e. stale (differ g p.generation e))
  where
    differ : (a b : ℕ) → (a == b) ≡ false → a ≢ b
    differ a b e = ground arith

-- What does not concern the flag of a completion that runs.
other : {A : Type 0} → ⊥ ⊎ A → A
other (inl b) = absurd b
other (inr a) = a

module _ (encode_folders : List SyncFolderView → Result String String)
    (encode_drive_folders : List DriveFolderView → Result String String)
    (nat_text : ℕ → String) where
  pub flags-show_found :
      (revision : ℕ) (r : Result String Found) (m : SyncManager)
      → flags_of (show_found encode_folders encode_drive_folders nat_text revision r m) ≡ flags_of m
  flags-show_found revision (err e) m = refl
  flags-show_found revision (ok ((json, count), authenticated)) m =
      if-cases (λ n. flags_of n ≡ flags_of m) (m.authentication_revision == revision) _ m
        (flags-take authenticated) refl
    where
      flags-take : (a : Result String Bool) → flags_of (take_authentication a m) ≡ flags_of m
      flags-take (ok b) = refl
      flags-take (err e) = refl

  pub flags-show_drive_folders :
      (r : Result String Response) (m : SyncManager)
      → flags_of (show_drive_folders encode_folders encode_drive_folders nat_text r m)
        ≡ record (flags_of m) { loading = false }
  flags-show_drive_folders (err e) m = refl
  flags-show_drive_folders (ok done_response) m = refl
  flags-show_drive_folders (ok (snapshot_response rows a)) m = refl
  flags-show_drive_folders (ok (dark_mode_response b)) m = refl
  flags-show_drive_folders (ok (drive_folders_response rows)) m = shown (encode_drive_folders _)
    where
      shown :
          (r : Result String String)
          → flags_of (drive_folders encode_folders encode_drive_folders nat_text r m)
            ≡ record (flags_of m) { loading = false }
      shown (ok json) = refl
      shown (err e) = refl

  complete_dark_mode-Waits :
      (r : Result String Response) (w : Window) → Waits w → Waits (complete_dark_mode r w)
  unfolding complete_dark_mode set
  complete_dark_mode-Waits (err e) w h = h
  complete_dark_mode-Waits (ok done_response) w h = h
  complete_dark_mode-Waits (ok (snapshot_response rows a)) w h = h
  complete_dark_mode-Waits (ok (dark_mode_response b)) w h = h
  complete_dark_mode-Waits (ok (drive_folders_response rows)) w h = h

  abbrev Awaited : Completion → Flags → List Task → Type 0
  Awaited c f tasks =
      Left IsRefresh c f.refreshing f.snapshot tasks
      × Left IsBrowse c f.loading f.browse tasks
      × Left IsMutation c f.busy f.mutation tasks
      × (f.busy ≡ true → f.refreshing ≡ false)

  complete-Waits :
      (c : Completion) (r : Result String Response) (w : Window)
      → Awaited c (flags_of w.manager) w.tasks
      → Waits (complete encode_folders encode_drive_folders nat_text c r w)
  unfolding complete complete_refresh complete_browse complete_mutation set
  complete-Waits (refresh_done g revision) r w (awaited, listing, operation, exclusive) =
      finish-cases
        (λ (f : Bool × PendingRequest). Waits (
          if f.0
          then set
              (show_found encode_folders encode_drive_folders nat_text revision
                (found encode_folders encode_drive_folders nat_text r))
              (set (λ m. record m { snapshot = f.1; refreshing = false }) w)
          else w))
        g w.manager.snapshot
        (subst (λ f. WaitsFor f w.tasks) (sym (flags-show_found revision _ _))
          (record {
            refreshing = λ e. absurd (cc);
            loading = λ e. other (listing e);
            busy = λ e. other (operation e);
            exclusive = λ e. refl;
          }))
        λ stale. record {
          refreshing = λ e. elim (awaited e) [ inl now ↦ absurd (stale now) | inr later ↦ later ];
          loading = λ e. other (listing e);
          busy = λ e. other (operation e);
          exclusive = exclusive;
        }
  complete-Waits (browse_done g) r w (awaited, listing, operation, exclusive) =
      finish-cases
        (λ (f : Bool × PendingRequest). Waits (
          if f.0
          then set (show_drive_folders encode_folders encode_drive_folders nat_text r)
              (set (λ m. record m { browse = f.1 }) w)
          else w))
        g w.manager.browse
        (subst (λ f. WaitsFor f w.tasks) (sym (flags-show_drive_folders r _))
          (record {
            refreshing = λ e. other (awaited e);
            loading = λ e. absurd (cc);
            busy = λ e. other (operation e);
            exclusive = exclusive;
          }))
        λ stale. record {
          refreshing = λ e. other (awaited e);
          loading = λ e. elim (listing e) [ inl now ↦ absurd (stale now) | inr later ↦ later ];
          busy = λ e. other (operation e);
          exclusive = exclusive;
        }
  complete-Waits (mutation_done g signing_in revision message) r w
        (awaited, listing, operation, exclusive) =
      finish-cases
        (λ (f : Bool × PendingRequest). Waits (
          if f.0
          then refresh (
              set (mutated signing_in revision message r)
                (set (λ m. record m { mutation = f.1 }) w))
          else w))
        g w.manager.mutation
        (refresh-Waits _ (record {
          refreshing = λ e. other (awaited e);
          loading = λ e. other (listing e);
          busy = λ e. absurd (cc);
          exclusive = λ e. absurd (cc);
        }))
        λ stale. record {
          refreshing = λ e. other (awaited e);
          loading = λ e. other (listing e);
          busy = λ e. elim (operation e) [ inl now ↦ absurd (stale now) | inr later ↦ later ];
          exclusive = exclusive;
        }
  complete-Waits dark_mode_done r w (awaited, listing, operation, exclusive) =
      complete_dark_mode-Waits r w (record {
        refreshing = λ e. other (awaited e);
        loading = λ e. other (listing e);
        busy = λ e. other (operation e);
        exclusive = exclusive;
      })

  answer-Waits :
      (r : Result String Response) (w : Window) (o : Option (Task × List Task))
      → Taken w.tasks o
      → Waits w
      → Waits (answer encode_folders encode_drive_folders nat_text r w o)
  answer-Waits r w none taken h = h
  answer-Waits r w (some (t, us)) taken h =
      complete-Waits t.complete r (record w { tasks = us })
        (
          λ e. left IsRefresh w.manager.snapshot (taken _ (h.refreshing e)),
          λ e. left IsBrowse w.manager.browse (taken _ (h.loading e)),
          λ e. left IsMutation w.manager.mutation (taken _ (h.busy e)),
          h.exclusive,
        )
    where
      left :
          (Is : ℕ → Completion → Type 0) (p : PendingRequest)
          → Serves Is p t ⊎ AnyTask (Serves Is p) us
          → Is p.generation t.complete ⊎ AnyTask (Serves Is p) us
      left Is p (inl s) = inl s.0
      left Is p (inr a) = inr a

  pub ui_op-Waits :
      (op : UiOp) (w : Window)
      → Waits w
      → Waits (ui_op encode_folders encode_drive_folders nat_text op w)
  unfolding ui_op sign_in sign_out add_folder remove_folder set_folder_enabled
  ui_op-Waits initialize_op w h = initialize-Waits w h
  ui_op-Waits refresh_op w h = refresh-Waits w h
  ui_op-Waits sign_in_op w h = mutate-Waits _ _ w h
  ui_op-Waits sign_out_op w h = mutate-Waits _ _ w h
  ui_op-Waits cancel_drive_folders_op w h = cancel_drive_folders-Waits w h
  ui_op-Waits (add_folder_op form) w h = mutate-Waits _ _ w h
  ui_op-Waits (remove_folder_op id) w h = mutate-Waits _ _ w h
  ui_op-Waits (list_drive_folders_op id) w h = list_drive_folders-Waits id w h
  ui_op-Waits (set_folder_enabled_op id enabled) w h = mutate-Waits _ _ w h
  ui_op-Waits (sync_status_op event) w h = on_sync_status-Waits event w h
  ui_op-Waits (authentication_op event) w h = on_authentication-Waits event w h
  ui_op-Waits (answer_op n r) w h = answer-Waits r w (pick n w.tasks) (pick-Taken n w.tasks) h

  pub ui_ops-Waits :
      (ops : List UiOp) (w : Window)
      → Waits w
      → Waits (ui_ops encode_folders encode_drive_folders nat_text ops w)
  unfolding ui_ops
  ui_ops-Waits [] w h = h
  ui_ops-Waits (op ∷ ops) w h = ui_ops-Waits ops _ (ui_op-Waits op w h)

pub new_window-Waits : (runtime : Option String) → Waits (new_window runtime)
new_window-Waits runtime = record {
  refreshing = λ e. absurd (cc);
  loading = λ e. absurd (cc);
  busy = λ e. absurd (cc);
  exclusive = λ e. refl;
}
