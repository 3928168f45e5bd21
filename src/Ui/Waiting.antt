-- ===== src/Ui/Waiting.antt =====
-- What the flags of `SyncManager` in crates/gdrive-ui/src/cxxqt_object.rs wait for.
pub mod Events
use gd_client.Prelude.{
  arith, ℕ, suc, String, Bool, true, false, ◌||◌, Option, some, List, [], ◌∷◌, Result, ok, err, ◌≡◌,
  ◌⊎◌, inl, inr, refl, if-cases, if-split,
}
use gd_client.Ui.Requests.{PendingRequest, attach, cancel}
use gd_client.Ui.Window.{
  Window, SyncManager, Request, Completion, refresh_done, mutation_done, browse_done,
  dark_mode_done, Task, dark_mode_request, spawn, dispatch, set, cancel_snapshot, cancel_mutation,
  cancel_browse, add_task,
}
use gd_client.Ui.Actions.{
  refresh, begin_refresh, mutate, begin_mutation, at_work, loading, initialize, list_drive_folders,
  cancel_drive_folders, on_sync_status, on_authentication, SyncStatusEvent, snapshot_event,
  unavailable_event, AuthenticationEvent, ready, changed, refresh_started, mutation_started,
  browse_started, portal_started, status_watch_started, authentication_watch_started,
}

abbrev pub AnyTask : (Task → Type 0) → List Task → Type 0
AnyTask P [] = ⊥
AnyTask P (t ∷ ts) = P t ⊎ AnyTask P ts

-- The completion of a refresh, of a listing, of an operation with that generation.
abbrev pub IsRefresh : ℕ → Completion → Type 0
IsRefresh g (refresh_done h _) = h ≡ g
IsRefresh g (mutation_done _ _ _ _) = ⊥
IsRefresh g (browse_done _) = ⊥
IsRefresh g dark_mode_done = ⊥

abbrev pub IsBrowse : ℕ → Completion → Type 0
IsBrowse g (refresh_done _ _) = ⊥
IsBrowse g (mutation_done _ _ _ _) = ⊥
IsBrowse g (browse_done h) = h ≡ g
IsBrowse g dark_mode_done = ⊥

abbrev pub IsMutation : ℕ → Completion → Type 0
IsMutation g (refresh_done _ _) = ⊥
IsMutation g (mutation_done h _ _ _) = h ≡ g
IsMutation g (browse_done _) = ⊥
IsMutation g dark_mode_done = ⊥

-- The task of the pending request: its completion is of the current generation, its handle is held.
abbrev pub Serves : (ℕ → Completion → Type 0) → PendingRequest → Task → Type 0
Serves Is p t = Is p.generation t.complete × (p.handle ≡ some t.handle)

-- While the flag is set, there is a task that serves the request.
abbrev pub Waiting : (ℕ → Completion → Type 0) → Bool → PendingRequest → List Task → Type 0
Waiting Is flag p tasks = flag ≡ true → AnyTask (Serves Is p) tasks

-- What of the manager says whether something is awaited.
pub record Flags : Type 0 where
  pub refreshing : Bool
  pub loading : Bool
  pub busy : Bool
  pub snapshot : PendingRequest
  pub browse : PendingRequest
  pub mutation : PendingRequest

abbrev pub flags_of : SyncManager → Flags
flags_of m = record {
  refreshing = m.refreshing;
  loading = m.drive_folders_loading;
  busy = m.busy;
  snapshot = m.snapshot;
  browse = m.browse;
  mutation = m.mutation;
}

pub record WaitsFor (f : Flags) (tasks : List Task) : Type 0 where
  pub refreshing : Waiting IsRefresh f.refreshing f.snapshot tasks
  pub loading : Waiting IsBrowse f.loading f.browse tasks
  pub busy : Waiting IsMutation f.busy f.mutation tasks
  pub exclusive : f.busy ≡ true → f.refreshing ≡ false

-- Every flag that is set waits for a task, and no refresh is under way beside an operation.
abbrev pub Waits : Window → Type 0
Waits w = WaitsFor (flags_of w.manager) w.tasks

any-add :
    (P : Task → Type 0) (request : Request) (c : Completion) (r : Result String ℕ) (ts : List Task)
    → AnyTask P ts
    → AnyTask P (add_task request c r ts)
any-add P request c (ok h) ts a = inr a
any-add P request c (err e) ts a = a

refresh_started-Waits :
    (r : Result String ℕ) (revision : ℕ) (request : Request) (w : Window)
    → w.manager.busy ≡ false
    → Waiting IsBrowse w.manager.drive_folders_loading w.manager.browse w.tasks
    → Waits (
        refresh_started (
          r,
          record w {
            tasks =
                add_task request (refresh_done w.manager.snapshot.generation revision) r w.tasks;
          },
        ))
unfolding set attach
refresh_started-Waits (ok h) revision request w free loading = record {
  refreshing = λ e. inl (refl, refl);
  loading = λ e. inr (loading e);
  busy = λ e. absurd (cc);
  exclusive = λ e. absurd (cc);
}
refresh_started-Waits (err x) revision request w free loading = record {
  refreshing = λ e. absurd (cc);
  loading = loading;
  busy = λ e. absurd (cc);
  exclusive = λ e. refl;
}

begin_refresh-Waits :
    (w : Window)
    → w.manager.busy ≡ false
    → Waiting IsBrowse w.manager.drive_folders_loading w.manager.browse w.tasks
    → Waits (begin_refresh w)
unfolding begin_refresh dispatch spawn set cancel_snapshot cancel
begin_refresh-Waits w free loading =
    let v = set (λ m. record m { refreshing = true }) (cancel_snapshot w) in
    refresh_started-Waits _ _ _ (record v { next_handle = suc w.next_handle }) free loading

or-left : (b c : Bool) → (b || c) ≡ false → b ≡ false
or-left b c e = ground arith

pub refresh-Waits : (w : Window) → Waits w → Waits (refresh w)
unfolding refresh
refresh-Waits w h =
    if-split Waits (w.manager.busy || w.manager.refreshing) w (begin_refresh w) (λ e. h)
      λ e. begin_refresh-Waits w (or-left w.manager.busy w.manager.refreshing e) h.loading

mutation_started-Waits :
    (r : Result String ℕ) (signing_in : Bool) (revision : ℕ) (message : Option String)
    (request : Request) (w : Window)
    → w.manager.refreshing ≡ false
    → Waiting IsBrowse w.manager.drive_folders_loading w.manager.browse w.tasks
    → Waits (
        mutation_started (
          r,
          record w {
            tasks =
                add_task request
                  (mutation_done w.manager.mutation.generation signing_in revision message)
                  r
                  w.tasks;
          },
        ))
unfolding set attach
mutation_started-Waits (ok h) signing_in revision message request w still loading = record {
  refreshing = λ e. absurd (cc);
  loading = λ e. inr (loading e);
  busy = λ e. inl (refl, refl);
  exclusive = λ e. still;
}
mutation_started-Waits (err x) signing_in revision message request w still loading = record {
  refreshing = λ e. absurd (cc);
  loading = loading;
  busy = λ e. absurd (cc);
  exclusive = λ e. still;
}

pub mutate-Waits :
    (request : Request) (message : Option String) (w : Window)
    → Waits w
    → Waits (mutate request message w)
unfolding mutate begin_mutation dispatch spawn set cancel_snapshot cancel_mutation cancel
mutate-Waits request message w h = if-cases Waits w.manager.busy _ _ h (
    mutation_started-Waits _ _ _ _ _
      (record (cancel_mutation (set at_work (cancel_snapshot w))) {
        next_handle = suc w.next_handle;
      })
      refl h.loading)

browse_started-Waits :
    (r : Result String ℕ) (request : Request) (w : Window)
    → Waiting IsRefresh w.manager.refreshing w.manager.snapshot w.tasks
    → Waiting IsMutation w.manager.busy w.manager.mutation w.tasks
    → (w.manager.busy ≡ true → w.manager.refreshing ≡ false)
    → Waits (
        browse_started (
          r,
          record w { tasks = add_task request (browse_done w.manager.browse.generation) r w.tasks },
        ))
unfolding set attach
browse_started-Waits (ok h) request w refreshing busy exclusive = record {
  refreshing = λ e. inr (refreshing e);
  loading = λ e. inl (refl, refl);
  busy = λ e. inr (busy e);
  exclusive = exclusive;
}
browse_started-Waits (err x) request w refreshing busy exclusive = record {
  refreshing = refreshing;
  loading = λ e. absurd (cc);
  busy = busy;
  exclusive = exclusive;
}

pub list_drive_folders-Waits :
    (id : String) (w : Window) → Waits w → Waits (list_drive_folders id w)
unfolding list_drive_folders dispatch spawn set cancel_browse cancel
list_drive_folders-Waits id w h =
    browse_started-Waits _ _
      (record (set loading (cancel_browse w)) { next_handle = suc w.next_handle }) h.refreshing
      h.busy h.exclusive

pub cancel_drive_folders-Waits : (w : Window) → Waits w → Waits (cancel_drive_folders w)
unfolding cancel_drive_folders set cancel_browse cancel
cancel_drive_folders-Waits w h = record {
  refreshing = h.refreshing;
  loading = λ e. absurd (cc);
  busy = h.busy;
  exclusive = h.exclusive;
}
