-- ===== src/Ui/OneOperation/Count.antt =====
-- How many operations of the window in crates/gdrive-ui/src/cxxqt_object.rs are under way after each of its
-- methods, and after an event.
use gd_client.Prelude.{
  arith, ℕ, suc, String, Bool, true, false, ◌≤◌, ◌||◌, Option, List, [], ◌∷◌, Result, ok, err, ◌≡◌,
  refl, subst, if-cases, if-split,
}
use gd_client.Ui.Window.{
  Window, Request, dark_mode_request, Completion, refresh_done, mutation_done, browse_done,
  dark_mode_done, Task, set, add_task, spawn, dispatch, cancel_snapshot, cancel_mutation,
  cancel_browse,
}
use gd_client.Ui.Actions.{
  refresh, begin_refresh, mutate, begin_mutation, at_work, loading, list_drive_folders,
  on_sync_status, on_authentication, initialize, SyncStatusEvent, AuthenticationEvent,
  snapshot_event, unavailable_event, ready, changed, refresh_started, mutation_started,
  browse_started, portal_started, status_watch_started, authentication_watch_started,
}

abbrev pub count_one : Completion → ℕ → ℕ
count_one (refresh_done _ _) n = n
count_one (mutation_done _ _ _ _) n = suc n
count_one (browse_done _) n = n
count_one dark_mode_done n = n

-- How many of the tasks are operations, whether aborted or not.
abbrev pub operations : List Task → ℕ
operations [] = 0
operations (t ∷ ts) = count_one t.complete (operations ts)

abbrev pub one_if : Bool → ℕ
one_if true = 1
one_if false = 0

abbrev pub AtMost : Window → Type 0
AtMost w = operations w.tasks ≤ one_if w.manager.busy

refresh_started-AtMost :
    (r : Result String ℕ) (g revision : ℕ) (request : Request) (w : Window)
    → AtMost w
    → AtMost (
        refresh_started
          (r, record w { tasks = add_task request (refresh_done g revision) r w.tasks }))
unfolding set
refresh_started-AtMost (ok h) g revision request w few = few
refresh_started-AtMost (err e) g revision request w few = few

pub refresh-AtMost : (w : Window) → AtMost w → AtMost (refresh w)
unfolding refresh begin_refresh set cancel_snapshot dispatch spawn
refresh-AtMost w few =
    if-cases AtMost (w.manager.busy || w.manager.refreshing) w (begin_refresh w) few (
      refresh_started-AtMost _ _ _ _
        (record (set (λ m. record m { refreshing = true }) (cancel_snapshot w)) {
          next_handle = suc w.next_handle;
        })
        few)

mutation_started-AtMost :
    (r : Result String ℕ) (g revision : ℕ) (signing_in : Bool) (message : Option String)
    (request : Request) (w : Window)
    → operations w.tasks ≤ 0
    → w.manager.busy ≡ true
    → AtMost (
        mutation_started (
          r,
          record w {
            tasks = add_task request (mutation_done g signing_in revision message) r w.tasks;
          },
        ))
unfolding set
mutation_started-AtMost (ok h) g revision signing_in message request w idle busy =
    rw (busy) (ground arith)
mutation_started-AtMost (err e) g revision signing_in message request w idle busy = idle

pub mutate-AtMost :
    (request : Request) (message : Option String) (w : Window)
    → AtMost w
    → AtMost (mutate request message w)
unfolding mutate begin_mutation set cancel_snapshot cancel_mutation dispatch spawn
mutate-AtMost request message w few =
    if-split AtMost w.manager.busy _ (begin_mutation request message w) (λ e. few)
      λ e.
        mutation_started-AtMost _ _ _ _ _ _
          (record (cancel_mutation (set at_work (cancel_snapshot w))) {
            next_handle = suc w.next_handle;
          })
          (subst (λ b. operations w.tasks ≤ one_if b) e few) refl

browse_started-AtMost :
    (r : Result String ℕ) (g : ℕ) (request : Request) (w : Window)
    → AtMost w
    → AtMost (browse_started (r, record w { tasks = add_task request (browse_done g) r w.tasks }))
unfolding set
browse_started-AtMost (ok h) g request w few = few
browse_started-AtMost (err e) g request w few = few

pub list_drive_folders-AtMost :
    (id : String) (w : Window) → AtMost w → AtMost (list_drive_folders id w)
unfolding list_drive_folders dispatch spawn set cancel_browse
list_drive_folders-AtMost id w few =
    browse_started-AtMost _ _ _
      (record (set loading (cancel_browse w)) { next_handle = suc w.next_handle }) few

pub on_sync_status-AtMost :
    (event : SyncStatusEvent) (w : Window) → AtMost w → AtMost (on_sync_status event w)
unfolding on_sync_status set
on_sync_status-AtMost (snapshot_event s) w few = few
on_sync_status-AtMost (unavailable_event e) w few = few

pub on_authentication-AtMost :
    (event : AuthenticationEvent) (w : Window) → AtMost w → AtMost (on_authentication event w)
unfolding on_authentication set cancel_snapshot
on_authentication-AtMost ready w few = refresh-AtMost _ few
on_authentication-AtMost (changed b) w few = refresh-AtMost _ few

status_watch-AtMost :
    (r : Result String ℕ) (w : Window) → AtMost w → AtMost (status_watch_started (r, w))
unfolding set
status_watch-AtMost (ok h) w few = few
status_watch-AtMost (err e) w few = few

authentication_watch-AtMost :
    (r : Result String ℕ) (w : Window) → AtMost w → AtMost (authentication_watch_started (r, w))
unfolding set
authentication_watch-AtMost (ok h) w few = few
authentication_watch-AtMost (err e) w few = few

portal-AtMost :
    (r : Result String ℕ) (w : Window)
    → AtMost w
    → AtMost (
        portal_started
          (r, record w { tasks = add_task dark_mode_request dark_mode_done r w.tasks }))
unfolding set
portal-AtMost (ok h) w few = few
portal-AtMost (err e) w few = few

pub initialize-AtMost : (w : Window) → AtMost w → AtMost (initialize w)
unfolding initialize set dispatch spawn
initialize-AtMost w few =
    let marked = set (λ m. record m { initialized = true }) w in
    let watched = status_watch_started (spawn marked) in
    let subscribed = authentication_watch_started (spawn watched) in
    if-cases AtMost w.manager.initialized _ _ few (
      refresh-AtMost _ (
        portal-AtMost (spawn subscribed).0 (spawn subscribed).1 (
          spawned (authentication_watch_started (spawn watched)) (
            authentication_watch-AtMost (spawn watched).0 (spawn watched).1 (
              spawned watched
                (status_watch-AtMost (spawn marked).0 (spawn marked).1 (spawned marked few)))))))
  where
    spawned : (v : Window) → AtMost v → AtMost (spawn v).1
    spawned v h = h
