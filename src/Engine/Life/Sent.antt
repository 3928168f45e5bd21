-- ===== src/Engine/Life/Sent.antt =====
-- A worker of engine.rs on the Drive client of drive_client.rs: what it sends in its whole life.
use gd_client.Prelude.{
  ℕ, zero, suc, String, false, Option, none, some, List, [], ◌++◌, Result, All, ◌≡◌, subst, sym,
  inl, inr,
}
use gd_client.Effects.{Exec, lift}
use gd_client.Effects.Keeps.{Keeps, Keeps-bind}
use gd_client.Common.Errors.{SyncError}
use gd_client.Common.Config.{SyncFolder}
use gd_client.SyncStatus.{FolderRun}
use gd_client.Drive.Auth.{TokenDisk, OAuthConfig, is_empty}
use gd_client.Drive.Requests.{Request, Internet, World, send, check_status}
use gd_client.Drive.Requests.Retry.{Log, Attempts, send-Attempts}
use gd_client.Drive.Paging.{Page, pages, turn_page}
use gd_client.Drive.Client.{
  Json, Change, fetch_json, fetch_page, list_files, list_children, get_start_page_token,
  fetch_changes, create_folder, download_file, upload_file, delete_file,
}
use gd_client.Drive.Client.Changes.{change_pages, turn_changes, list_changes}
use gd_client.Engine.Site.{Remote, Host, Site}
use gd_client.Engine.Folder.{Wake, run_folder}
use gd_client.Engine.Life.{Respects}
use gd_client.Engine.Life.Handlers.{IfEnded, run_folder-IfEnded}

module _ (D : TokenDisk) (I : Internet D) (config : Option OAuthConfig) (J : Json) (base : String)
    (pages_of : ℕ) where
  -- The Drive of a worker; `pages_of` bounds the pages of a listing.
  abbrev pub drive_remote : Remote
  drive_remote = record {
    World = World D I;
    list_children = list_children D I config J base pages_of;
    get_start_page_token = get_start_page_token D I config J base;
    list_changes = list_changes D I config J base pages_of;
    create_folder = create_folder D I config J base;
    download_file = download_file D I config J base;
    upload_file = upload_file D I config J base;
    delete_file = delete_file D I config J base;
  }

  -- All that was sent had a token that is not empty.
  abbrev pub HasTokens : World D I → Type 0
  HasTokens w = All (λ (r : Request × String). is_empty r.1 ≡ false) w.drive_requests

  send-Keeps : (request : Request) → Keeps HasTokens (send D I config request)
  send-Keeps request w p = sent (send D I config request w).1 (send-Attempts D I config request w)
    where
      AllFull : Log → Type 0
      AllFull = All (λ (r : Request × String). is_empty r.1 ≡ false)

      sent : (v : World D I) → Attempts D I config request w.drive_requests v → HasTokens v
      sent v (inl same) = subst AllFull (sym same) p
      sent v (inr (inl (t, e, full))) = subst AllFull (sym e) (full, p)
      sent v (inr (inr (clone, (t, u, e, full, full', refused)))) =
          subst AllFull (sym e) (full', (full, p))

  fetch_json-Keeps :
      {T : Type 0} (decode : String → Result SyncError T) (request : Request)
      → Keeps HasTokens (fetch_json D I config J base decode request)
  unfolding fetch_json
  fetch_json-Keeps {T} decode request =
      Keeps-bind HasTokens (send D I config request) _ (send-Keeps request) λ response.
        Keeps-bind HasTokens (lift (check_status D I config response)) _ (λ w p. p)
          λ checked. Keeps-bind HasTokens (lift checked.text) _ (λ w p. p) (λ body w p. p)

  pages-Keeps :
      {T : Type 0} (fetch : Option String → Exec (World D I) (Page T))
      → ((token : Option String) → Keeps HasTokens (fetch token))
      → (fuel : ℕ) (token : Option String) (files : List T)
      → Keeps HasTokens (pages fetch fuel token files)
  unfolding pages
  pages-Keeps fetch h zero token files = λ w p. p
  pages-Keeps {T} fetch h (suc fuel) token files =
      Keeps-bind HasTokens (fetch token) _ (h token)
        (λ page. turn (pages-Keeps fetch h fuel) page.next_page_token (files ++ page.files))
    where
      turn :
          ((next : Option String) (more : List T) → Keeps HasTokens (pages fetch fuel next more))
          → (next : Option String) (more : List T)
          → Keeps HasTokens (turn_page fetch (pages fetch fuel) next more)
      turn loop none more = λ w p. p
      turn loop (some next) more = loop (some next) more

  change_pages-Keeps :
      (fuel : ℕ) (token : String) (changes : List Change)
      → Keeps HasTokens (change_pages (fetch_changes D I config J base) fuel token changes)
  unfolding change_pages fetch_changes
  change_pages-Keeps zero token changes = λ w p. p
  change_pages-Keeps (suc fuel) token changes =
      Keeps-bind HasTokens (fetch_changes D I config J base token) _
        (fetch_json-Keeps J.change_list _)
        (λ page.
          turn (change_pages-Keeps fuel) page.next_page_token page.new_start_page_token
            (changes ++ page.changes))
    where
      turn :
          ((next : String) (more : List Change)
            → Keeps HasTokens (change_pages (fetch_changes D I config J base) fuel next more))
          → (next new_start : Option String) (more : List Change)
          → Keeps HasTokens (
              turn_changes
                (fetch_changes D I config J base)
                (change_pages (fetch_changes D I config J base) fuel)
                token
                next
                new_start
                more)
      turn loop none new_start more = λ w p. p
      turn loop (some next) new_start more = loop next more

  upload_file-Keeps :
      (id : Option String) (name parent_id : String) (content : List ℕ)
      → Keeps HasTokens (upload_file D I config J base id name parent_id content)
  unfolding upload_file
  upload_file-Keeps none name parent_id content = fetch_json-Keeps J.drive_file _
  upload_file-Keeps (some id) name parent_id content = fetch_json-Keeps J.drive_file _

  drive-Respects : Respects drive_remote HasTokens
  unfolding list_children list_files fetch_page get_start_page_token list_changes create_folder
      download_file delete_file
  drive-Respects = record {
    list_children = λ id. pages-Keeps _ (λ token. fetch_json-Keeps J.file_list _) pages_of none [];
    get_start_page_token = fetch_json-Keeps J.start_page_token _;
    list_changes = λ token. change_pages-Keeps pages_of token [];
    create_folder = λ name parent_id. fetch_json-Keeps J.drive_file _;
    download_file = λ id. Keeps-bind HasTokens (send D I config _) _ (send-Keeps _) λ response.
        Keeps-bind HasTokens (lift (check_status D I config response)) _ (λ w p. p)
          (λ checked w p. p);
    upload_file = upload_file-Keeps;
    delete_file = λ id. Keeps-bind HasTokens (send D I config _) _ (send-Keeps _) λ response.
        Keeps-bind HasTokens (lift (check_status D I config response)) _ (λ w p. p)
          (λ checked w p. p);
  }

  -- In the life of a worker, whatever the network, the host, the database and other tasks do: once its
  -- preparation and any turns of its loop have come to an end, with or without errors, every request
  -- that it has sent to Drive went out with a token that is not empty.
  pub run_folder-HasTokens :
      (H : Host) (folder : SyncFolder) (run : FolderRun) (fuel : ℕ) (ws : List Wake)
      (s : Site drive_remote H)
      → HasTokens s.drive
      → IfEnded drive_remote H HasTokens (run_folder drive_remote H folder run fuel ws s)
  run_folder-HasTokens H folder run fuel ws s p =
      run_folder-IfEnded drive_remote H HasTokens drive-Respects folder run fuel ws s p
