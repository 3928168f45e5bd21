-- ===== src/Engine/Tests.antt =====
-- A worker of engine.rs beside a small Drive and a host whose files are a list.
mod Small
use gd_client.Prelude.{
  ℕ, suc, String, true, false, none, some, List, [], ◌∷◌, ok, ◌≡◌, ◌≢◌, All, arith, refl, ap, ◌∙◌,
  subst, str_eq, if◌then◌else◌,
}
use gd_client.Prelude.Keys.{nat_ord, string_ord}
use gd_client.Prelude.BTreeMap.{get}
use gd_client.Common.Config.{SyncFolder}
use gd_client.Common.Paths.{PathBuf, strip_prefix}
use gd_client.StateDb.{
  empty_db, FileStateEntry, find_by_drive_id, get_page_token, set_page_token, upsert_file_state,
}
use gd_client.SyncStatus.{FolderRun, FolderStatus}
use gd_client.Drive.Client.{DriveFile, Json}
use gd_client.Drive.Tests.Disk.{memory, oauth_config}
use gd_client.Drive.Tests.Sessions.{client}
use gd_client.Drive.Tests.Network.{answer, listed}
use gd_client.Engine.Life.Handlers.{IfEnded}
use gd_client.Engine.Life.Sent.{drive_remote, HasTokens, run_folder-HasTokens}
use gd_client.Engine.Site.{Remote, Host, Site}
use gd_client.Engine.Watcher.{LocalChange, LocalChangeKind}
use gd_client.Engine.Ownership.{Owner, apply_ownership}
use gd_client.Engine.Local.{handle_local_change, rel_text, path_or}
use gd_client.Engine.Local.Rows.{Handled, handle_local_change-Handled}
use gd_client.Engine.Poll.{poll_remote_changes, apply_change, apply_changes, apply_content}
use gd_client.Engine.Pull.{
  fetch_file, initial_pull, record_state, pull_children, pull_child, make_folder, pull_file,
  needs_download,
}
use gd_client.Engine.Pull.Complete.{Mirrored, initial_pull-Mirrored}
use gd_client.Engine.Pull.Downloads.{Grows}
use gd_client.Engine.Pull.Journal.{Journal, fetch_file-Journal}
use gd_client.Engine.Pull.Termination.{Nested}
use gd_client.Engine.Pull.Counts.{IsCount, PullEnded, initial_pull-PullEnded}
use gd_client.Engine.Folder.{run_folder, local_wake, wake_then, Wake, tick, wake, wakes}
use gd_client.Engine.Folder.Turns.{Turned, key_of, wake-Turned}
use gd_client.Engine.Tests.Small.{
  file, folder_type, listing, small_drive, small_host, docs, me, run, docs_row, idle_status,
  listing, idle_status, site, change,
}

-- The state of this Drive is the number of the downloads.
abbrev counting_drive : Remote
counting_drive = record small_drive { list_children = λ id w. (ok (some (listing id)), w) }

abbrev downloads : ℕ → ℕ
downloads w = w

downloads-IsCount : IsCount counting_drive downloads
downloads-IsCount = record { listing = λ id w. refl; download = λ id w content e. refl }

abbrev counting_site : Site counting_drive small_host
counting_site = record {
  drive = 0;
  disk = [];
  db = record { page_tokens = []; files = docs_row ∷ []; outcomes = [] };
  status = record { state = record { revision = 4; folders = (7, idle_status) ∷ [] }; changes = 4 };
  events = [];
}

initial_pull-PullEnded_example :
    PullEnded counting_drive small_host docs me downloads downloads-IsCount 0
      (initial_pull counting_drive small_host docs me 2 "root" "" counting_site).0
      (initial_pull counting_drive small_host docs me 2 "root" "" counting_site).1
initial_pull-PullEnded_example =
    initial_pull-PullEnded counting_drive small_host docs me downloads downloads-IsCount 2 2 "root"
      "" counting_site (omega arith) nested
  where
    inner : Nested counting_drive small_host docs me 1 "d"
    inner w = (
      λ e. cc,
      λ files e. let same : listing "d" ≡ files = cc in subst (All _) same (λ h. cc, tt),
    )

    nested : Nested counting_drive small_host docs me 2 "root"
    nested w = (
      λ e. cc,
      λ files e.
          let same : listing "root" ≡ files = cc in subst (All _) same (λ h. inner, (λ h. cc, tt)),
    )

handle_local_change-Handled_example :
    Handled small_drive small_host docs "root" me run
      (docs_row ∷ [])
      0
      (rel_text (path_or (strip_prefix change.path docs.local_path) change.path))
      (handle_local_change small_drive small_host docs "root" me run change site).0
      (handle_local_change small_drive small_host docs "root" me run change site).1
handle_local_change-Handled_example =
    handle_local_change-Handled small_drive small_host docs "root" me run (docs_row ∷ []) 0 change
      site (refl, refl)

abbrev after_tick : Site small_drive small_host
after_tick = elim (wake small_drive small_host docs run tick site) [ none ↦ site | some s ↦ s ]

ticked : wake small_drive small_host docs run tick site ≡ some after_tick
unfolding wake poll_remote_changes get_page_token apply_changes apply_change find_by_drive_id
    apply_content fetch_file apply_ownership record_state upsert_file_state set_page_token
ticked = refl

wake-Turned_example : Turned run docs (key_of docs tick) [] after_tick.status after_tick.events
unfolding get
wake-Turned_example =
    wake-Turned small_drive small_host docs run tick site after_tick idle_status refl refl refl
      ticked

abbrev elsewhere : Wake
elsewhere = local_wake (record { path = "/" ∷ "tmp" ∷ []; kind = LocalChangeKind.created })

ignored : wake small_drive small_host docs run elsewhere site ≡ some site
unfolding wake handle_local_change strip_prefix
ignored = refl

both_woken : wakes small_drive small_host docs run (elsewhere ∷ tick ∷ []) site ≡ some after_tick
unfolding wakes
both_woken =
    ap
      (wake_then small_drive small_host docs run
        (wakes small_drive small_host docs run (tick ∷ [])))
      ignored
    ∙ ap (wake_then small_drive small_host docs run (wakes small_drive small_host docs run []))
        ticked

fetch_file-Journal_example :
    Journal small_drive small_host 7 me change.path "a.txt"
      (file "f" "a.txt" "text/plain" "m3")
      false
      site
      (fetch_file small_drive small_host 7 me change.path "a.txt"
        (file "f" "a.txt" "text/plain" "m3")
        false
        site).0
      (fetch_file small_drive small_host 7 me change.path "a.txt"
        (file "f" "a.txt" "text/plain" "m3")
        false
        site).1
fetch_file-Journal_example =
    fetch_file-Journal small_drive small_host 7 me change.path "a.txt"
      (file "f" "a.txt" "text/plain" "m3") false site

initial_pull-Mirrored_example :
    Mirrored small_drive small_host docs me listing 2 "root" ""
      (initial_pull small_drive small_host docs me 2 "root" "" site).1
    × Grows small_drive small_host docs me site
        (initial_pull small_drive small_host docs me 2 "root" "" site).1
unfolding initial_pull pull_children pull_child make_folder apply_ownership record_state
    upsert_file_state pull_file needs_download find_by_drive_id fetch_file
initial_pull-Mirrored_example =
    initial_pull-Mirrored small_drive small_host docs me listing steady 2 "root" "" site 1 refl
  where
    steady :
        (id : String) (w : ℕ) (files : List DriveFile)
        → (small_drive.list_children id w).0 ≡ ok (some files)
        → files ≡ listing id
    steady id w files e = cc

-- The Drive client over a network that answers from a list, and a folder of one file.
abbrev json : Json
json = record {
  file_list = λ text.
      ok (record { files = file "f" "a.txt" "text/plain" "m1" ∷ []; next_page_token = none });
  folder_list = λ text. ok (record { files = []; next_page_token = none });
  start_page_token = λ text. ok "first";
  change_list = λ text.
      ok (record { changes = []; new_start_page_token = some "second"; next_page_token = none });
  drive_file = λ text. ok (file "up" "b.txt" "text/plain" "m4");
  to_string = λ fields. "{}";
  as_bytes = λ text. [];
}

abbrev online : Remote
online = drive_remote memory listed (some oauth_config) json "https://drive" 3

abbrev online_site : Site online small_host
online_site = record {
  drive = record {
    client = client;
    net = answer 200 ∷ answer 200 ∷ answer 200 ∷ answer 200 ∷ answer 200 ∷ [];
    drive_requests = [];
  };
  disk = [];
  db = empty_db [];
  status = site.status;
  events = [];
}

run_folder-HasTokens_example :
    IfEnded online small_host
      (HasTokens memory listed (some oauth_config) json "https://drive" 3)
      (run_folder online small_host docs run 2 (tick ∷ local_wake change ∷ []) online_site)
run_folder-HasTokens_example =
    run_folder-HasTokens memory listed (some oauth_config) json "https://drive" 3 small_host docs
      run 2 (tick ∷ local_wake change ∷ []) online_site tt
