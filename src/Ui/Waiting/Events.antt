-- ===== src/Ui/Waiting/Events.antt =====
-- The flags of `SyncManager` in crates/gdrive-ui/src/cxxqt_object.rs when it starts, and at the events of
-- its subscriptions.
use gd_client.Prelude.{ℕ, String, true, Result, ok, err, inr, refl, if-cases}
use gd_client.Ui.Requests.{cancel}
use gd_client.Ui.Window.{
  Window, Request, dark_mode_done, dark_mode_request, spawn, dispatch, set, cancel_snapshot,
  add_task,
}
use gd_client.Ui.Actions.{
  initialize, on_sync_status, on_authentication, SyncStatusEvent, snapshot_event, unavailable_event,
  AuthenticationEvent, ready, changed, portal_started, status_watch_started,
  authentication_watch_started,
}
use gd_client.Ui.Waiting.{Waits, refresh-Waits}

pub on_sync_status-Waits :
    (event : SyncStatusEvent) (w : Window) → Waits w → Waits (on_sync_status event w)
unfolding on_sync_status set
on_sync_status-Waits (snapshot_event s) w h = h
on_sync_status-Waits (unavailable_event e) w h = h

pub on_authentication-Waits :
    (event : AuthenticationEvent) (w : Window) → Waits w → Waits (on_authentication event w)
unfolding on_authentication set cancel_snapshot cancel
on_authentication-Waits ready w h = refresh-Waits _ (record {
  refreshing = λ e. absurd (cc);
  loading = h.loading;
  busy = h.busy;
  exclusive = λ e. refl;
})
on_authentication-Waits (changed b) w h = refresh-Waits _ (record {
  refreshing = λ e. absurd (cc);
  loading = h.loading;
  busy = h.busy;
  exclusive = λ e. refl;
})

status_watch_started-Waits :
    (r : Result String ℕ) (w : Window) → Waits w → Waits (status_watch_started (r, w))
unfolding set
status_watch_started-Waits (ok handle) w h = h
status_watch_started-Waits (err e) w h = h

authentication_watch_started-Waits :
    (r : Result String ℕ) (w : Window) → Waits w → Waits (authentication_watch_started (r, w))
unfolding set
authentication_watch_started-Waits (ok handle) w h = h
authentication_watch_started-Waits (err e) w h = h

portal_started-Waits :
    (r : Result String ℕ) (request : Request) (w : Window)
    → Waits w
    → Waits (portal_started (r, record w { tasks = add_task request dark_mode_done r w.tasks }))
unfolding set
portal_started-Waits (ok handle) request w h = record {
  refreshing = λ e. inr (h.refreshing e);
  loading = λ e. inr (h.loading e);
  busy = λ e. inr (h.busy e);
  exclusive = h.exclusive;
}
portal_started-Waits (err e) request w h = h

status_watch-Waits : (w : Window) → Waits w → Waits (status_watch_started (spawn w))
unfolding spawn
status_watch-Waits w h = status_watch_started-Waits (spawn w).0 (spawn w).1 h

authentication_watch-Waits : (w : Window) → Waits w → Waits (authentication_watch_started (spawn w))
unfolding spawn
authentication_watch-Waits w h = authentication_watch_started-Waits (spawn w).0 (spawn w).1 h

portal-Waits :
    (w : Window) → Waits w → Waits (portal_started (dispatch dark_mode_request dark_mode_done w))
unfolding dispatch spawn
portal-Waits w h = portal_started-Waits (spawn w).0 dark_mode_request (spawn w).1 h

pub initialize-Waits : (w : Window) → Waits w → Waits (initialize w)
unfolding initialize set
initialize-Waits w h =
    let v = set (λ m. record m { initialized = true }) w in
    if-cases Waits w.manager.initialized _ _ h (
      refresh-Waits _ (
        portal-Waits _
          (authentication_watch-Waits (status_watch_started (spawn v)) (status_watch-Waits v h))))
