-- ===== src/Ui/Watch/Displays.antt =====
-- What the window shows while `watch_sync_status` of crates/gdrive-ui/src/dbus_client.rs runs, against the
-- trackers of the daemons that it meets.
use gd_client.Prelude.{
  String, Bool-cases, List, [], ◌∷◌, ◌++◌, Option, none, some, Result, ok, err, ◌≡◌, ◌∙◌, ◌<◌, ◌+◌,
  ap, sym, subst, refl, inl, inr, u64_mod,
}
use gd_client.SyncStatus.{Uuid, StatusTracker, SyncStatus, snapshot, TrackerOp, tracker_ops}
use gd_client.Ui.Summary.{summarize_sync_status}
use gd_client.Ui.StatusSession.{Session, new_session, is_new, turn, turns, count_ops, session-Shows}
use gd_client.Ui.Window.{Window, set}
use gd_client.Ui.Actions.{on_sync_status, state_name}
use gd_client.Ui.Watch.{
  StatusRun, pass_on, session_loop, first_error, notify_unavailable, sync_status_session,
  watch_sync_status,
}

-- The window shows the summary of a snapshot, or an error.
abbrev pub Displays : SyncStatus → Window → Type 0
Displays snapshot w =
    (w.manager.sync_state ≡ state_name (summarize_sync_status snapshot).0)
    × (w.manager.sync_error ≡ (summarize_sync_status snapshot).1)

abbrev pub IsUnavailable : String → Window → Type 0
IsUnavailable e w = (w.manager.sync_state ≡ "unavailable") × (w.manager.sync_error ≡ e)

-- It shows what the session passed on last.
abbrev Passed : Option SyncStatus → Window → Type 0
Passed none w = Unit
Passed (some snapshot) w = Displays snapshot w

pass_on-Passed :
    (answer : SyncStatus) (s : Session) (w : Window)
    → Passed s.shown w
    → Passed (turn answer s).shown (pass_on answer (s, w)).1
unfolding pass_on turn on_sync_status set
pass_on-Passed answer s w passed = elim (Bool-cases (is_new s.revision answer.revision)) [
  | inl newer ↦ rw (newer, turn, pass_on) (refl, refl)
  | inr old ↦ rw (old, turn, pass_on) passed
]

watch-append :
    (before after : List StatusRun) (w : Window)
    → watch_sync_status (before ++ after) w ≡ watch_sync_status after (watch_sync_status before w)
unfolding watch_sync_status
watch-append [] after w = refl
watch-append (run ∷ before) after w = watch-append before after _

-- The last session, if it connects.
watch-last :
    (before : List StatusRun) (run : StatusRun) (w : Window)
    → first_error run.steps ≡ none
    → watch_sync_status (before ++ (run ∷ [])) w
      ≡ notify_unavailable (session_loop run.answers (new_session, watch_sync_status before w))
unfolding watch_sync_status sync_status_session
watch-last before run w connected =
    watch-append before (run ∷ []) w ∙ rw (connected, sync_status_session) refl

module _ (uuid_to_string : Uuid → String) where
  -- The answers of a daemon, whose tracker goes through some operations before each.
  abbrev pub answers : List (List TrackerOp) → StatusTracker → List (Result String SyncStatus)
  answers [] t = []
  answers (ops ∷ rest) t =
      let u = tracker_ops ops t in ok (snapshot uuid_to_string u) ∷ answers rest u

  loop-turns :
      (batches : List (List TrackerOp)) (t : StatusTracker) (s : Session) (w : Window)
      (more : List (Result String SyncStatus))
      → Passed s.shown w
      → (v : Window) × (session_loop (answers batches t ++ more) (s, w)
          ≡ session_loop more ((turns uuid_to_string batches (t, s)).1, v))
        × Passed (turns uuid_to_string batches (t, s)).1.shown v
  unfolding session_loop pass_on
  loop-turns [] t s w more passed = (w, refl, passed)
  loop-turns (ops ∷ rest) t s w more passed =
      loop-turns rest (tracker_ops ops t) (turn (snapshot uuid_to_string (tracker_ops ops t)) s) _
        more (pass_on-Passed (snapshot uuid_to_string (tracker_ops ops t)) s w passed)

  -- The session of a daemon, connected, and then what else it meets.
  abbrev pub run_of :
      List (Result String Unit)
      → List (List TrackerOp)
      → StatusTracker
      → List (Result String SyncStatus)
      → StatusRun
  run_of steps batches t more = record { steps = steps; answers = answers batches t ++ more }

  -- Whatever sessions came before, with errors and with other daemons: once the present one has connected,
  -- the window shows after each answer the summary of the tracker of its daemon as it is, as long as the
  -- revision cannot have wrapped; and when the session ends, it shows the error, and that the status is
  -- unavailable.
  pub watch-Displays :
      (before : List StatusRun) (steps : List (Result String Unit)) (first : List TrackerOp)
      (rest : List (List TrackerOp)) (t : StatusTracker) (w : Window) (e : String)
      → first_error steps ≡ none
      → t.state.revision + count_ops uuid_to_string (first ∷ rest) < u64_mod
      → Displays
          (snapshot uuid_to_string (turns uuid_to_string (first ∷ rest) (t, new_session)).0)
          (watch_sync_status (before ++ (run_of steps (first ∷ rest) t [] ∷ [])) w)
        × IsUnavailable e
            (watch_sync_status (before ++ (run_of steps (first ∷ rest) t (err e ∷ []) ∷ [])) w)
  unfolding watch_sync_status sync_status_session session_loop on_sync_status set
  watch-Displays before steps first rest t w e connected few =
      let v = watch_sync_status before w in
      let (u, running, passed) = loop-turns (first ∷ rest) t new_session v [] tt in
      let (x, ended, known) = loop-turns (first ∷ rest) t new_session v (err e ∷ []) tt in
      let shown = (session-Shows uuid_to_string first rest t few).1 in
      (
        subst (Displays _) (sym (watch-last before _ w connected ∙ ap notify_unavailable running))
            (subst (λ o. Passed o u) shown passed),
        subst (IsUnavailable e)
            (sym (watch-last before _ w connected ∙ ap notify_unavailable ended)) (refl, refl),
      )
