-- ===== src/Ui/Tests.antt =====
-- A request that is replaced by a newer one, and the summary of a tracker with one failed folder.
use gd_client.Prelude.{
  ℕ, String, List, [], ◌∷◌, ◌≡◌, ◌↔◌, ◌==◌, refl, arith, All, true, false, ok, err, none, Result,
  ◌≤◌, ◌++◌,
}
use gd_client.SyncStatus.{
  StatusTracker, snapshot, FolderRun, TrackerOp, start_op, worker_op, finish_op, new_tracker,
}
use gd_client.Ui.StatusSession.{turns, new_session}
use gd_client.Ui.Watch.{StatusRun, watch_sync_status}
use gd_client.Ui.Watch.Displays.{Displays, IsUnavailable, run_of, watch-Displays}
use gd_client.Ui.Requests.{
  RequestOp, begin_op, attach_op, begin, finish, new_request, request_ops, replacements,
  finish-begin, attach, cancel, request_op,
}
use gd_client.Ui.Window.{new_window, done_response}
use gd_client.Ui.Completions.{
  UiOp, initialize_op, sign_in_op, refresh_op, list_drive_folders_op, answer_op, ui_ops,
}
use gd_client.Ui.OneOperation.{one_operation}
use gd_client.Ui.OneOperation.Count.{operations}
use gd_client.Ui.Progress.{Progress, ui_ops-Progress}
use gd_client.Ui.Summary.{IsQuiet, idle_state, error_state, summarize_sync_status, summarize-idle}

abbrev replaced : List RequestOp
replaced = attach_op 5 ∷ begin_op ∷ attach_op 6 ∷ []

rejected : (finish (begin new_request).1 (request_ops replaced (begin new_request).0.0)).0 ≡ false
unfolding begin finish gd_client.Ui.Requests.cancel gd_client.Ui.Requests.request_op
    gd_client.Ui.Requests.attach
rejected = refl

finish-begin_example :
    (finish (begin new_request).1 (request_ops replaced (begin new_request).0.0)).0
    ≡ (replacements replaced == 0)
finish-begin_example = finish-begin new_request replaced (omega arith)

abbrev failed_upload : StatusTracker
failed_upload = record {
  state = record {
    revision = 4;
    folders =
        (7, record { generation = 0; syncing = false; errors = ("upload", "denied") ∷ [] })
        ∷ (9, record { generation = 1; syncing = true; errors = [] })
        ∷ [];
  };
  changes = 4;
}

abbrev uuid_text : ℕ → String
uuid_text id = "folder"

failed_summary :
    summarize_sync_status (snapshot uuid_text failed_upload)
    ≡ (error_state, "folder: upload: denied")
unfolding summarize_sync_status snapshot
failed_summary = refl

summarize-idle_example :
    ((summarize_sync_status (snapshot uuid_text failed_upload)).0 ≡ idle_state)
    ↔ All IsQuiet failed_upload.state.folders
summarize-idle_example = summarize-idle uuid_text failed_upload

abbrev upload_run : FolderRun
upload_run = record { id = 7; generation = 0 }

abbrev first_ops : List TrackerOp
first_ops = start_op 7 0 ∷ []

abbrev later_ops : List (List TrackerOp)
later_ops = [] ∷ (worker_op upload_run (finish_op "upload" (ok tt)) ∷ []) ∷ []

-- A session that could not connect, and one with another daemon.
abbrev earlier : List StatusRun
earlier =
    record { steps = err "no bus" ∷ []; answers = [] }
    ∷ record {
      steps = ok tt ∷ [];
      answers = ok (snapshot uuid_text failed_upload) ∷ err "gone" ∷ [];
    }
    ∷ []

watch-Displays_example :
    Displays
      (snapshot uuid_text (turns uuid_text (first_ops ∷ later_ops) (new_tracker, new_session)).0)
      (watch_sync_status
        (earlier ++ (run_of uuid_text (ok tt ∷ []) (first_ops ∷ later_ops) new_tracker [] ∷ []))
        (new_window none))
    × IsUnavailable "closed" (
        watch_sync_status
          (earlier
            ++ (run_of uuid_text
                  (ok tt ∷ [])
                  (first_ops ∷ later_ops)
                  new_tracker
                  (err "closed" ∷ [])
                ∷ []))
          (new_window none))
watch-Displays_example =
    watch-Displays uuid_text earlier (ok tt ∷ []) first_ops later_ops new_tracker (new_window none)
      "closed" refl (omega arith)

-- Starting, signing in, and browsing while the sign-in is under way.
abbrev signing_in : List UiOp
signing_in =
    initialize_op
    ∷ sign_in_op
    ∷ refresh_op
    ∷ list_drive_folders_op "root"
    ∷ answer_op 1 (ok done_response)
    ∷ []

abbrev encode {ℓ} : {A : Type ℓ} → A → Result String String
encode a = ok "[]"

abbrev number : ℕ → String
number n = "some"

ui_ops-Progress_example :
    Progress encode encode number (ui_ops encode encode number signing_in (new_window none))
ui_ops-Progress_example = ui_ops-Progress encode encode number none signing_in

accepted_sign_in :
    (ui_ops encode encode number signing_in (new_window none)).manager.waiting_for_sign_in ≡ true
unfolding ui_ops gd_client.Ui.Completions.ui_op gd_client.Ui.Actions.list_drive_folders
    gd_client.Ui.Window.dispatch gd_client.Ui.Window.set gd_client.Ui.Window.cancel_browse
    gd_client.Ui.Actions.refresh gd_client.Ui.Actions.sign_in gd_client.Ui.Actions.mutate
    gd_client.Ui.Actions.initialize gd_client.Ui.Actions.begin_refresh
    gd_client.Ui.Window.cancel_snapshot gd_client.Ui.Actions.begin_mutation
    gd_client.Ui.Window.cancel_mutation gd_client.Ui.Completions.complete
    gd_client.Ui.Completions.complete_mutation finish attach cancel gd_client.Ui.Window.spawn
accepted_sign_in = refl

one_operation_example :
    (operations (ui_ops encode encode number signing_in (new_window none)).tasks ≤ 1)
    × ((ui_ops encode encode number signing_in (new_window none)).manager.busy ≡ false
        → operations (ui_ops encode encode number signing_in (new_window none)).tasks ≡ 0)
one_operation_example = one_operation encode encode number none signing_in
