-- ===== src/Drive/Client.antt =====
-- The endpoints of crates/gdrive-sync/src/drive_client.rs. JSON and
-- UTF-8 are parameters. A run of `list_child_folders` that its deadline cuts off is told by `Deadline`.
pub mod Changes
use gd_client.Prelude.{
  Bool, List, Option, Result, String, [], err, false, map, none, ok, some, true, ℕ, ◌++◌, ◌<>◌, ◌∷◌,
}
use gd_client.Effects.{Exec, ◌>>=◌, ◌>>◌, pure, fail, lift}
use gd_client.Common.Errors.{SyncError, timeout}
use gd_client.Drive.Auth.{TokenDisk, OAuthConfig}
use gd_client.Drive.Requests.{
  JsonValue, json_text, json_array, Request, Internet, World, Body, Response, check_status,
  json_body, no_body, send, bytes_body, multipart_body,
}
use gd_client.Drive.Query.{query_literal}
use gd_client.Drive.Paging.{Page, pages}

pub record DriveFile : Type 0 where
  pub id : String
  pub name : String
  pub mime_type : String
  pub parents : List String
  pub modified_time : Option String
  pub trashed : Bool
  pub md5_checksum : Option String
  pub size : Option String

pub record FolderEntry : Type 0 where
  pub id : String
  pub name : String

pub record Change : Type 0 where
  pub file_id : String
  pub removed : Bool
  pub file : Option DriveFile

pub record ChangeListResponse : Type 0 where
  pub changes : List Change
  pub new_start_page_token : Option String
  pub next_page_token : Option String

abbrev pub folder_mime_type : String
folder_mime_type = "application/vnd.google-apps.folder"

abbrev api_base : String
api_base = "https://www.googleapis.com/drive/v3"

abbrev upload_base : String
upload_base = "https://www.googleapis.com/upload/drive/v3"

-- `response.json()` at each type, a JSON object's text, and the bytes of a text.
pub record Json : Type 0 where
  pub file_list : String → Result SyncError (Page DriveFile)
  pub folder_list : String → Result SyncError (Page FolderEntry)
  pub start_page_token : String → Result SyncError String
  pub change_list : String → Result SyncError ChangeListResponse
  pub drive_file : String → Result SyncError DriveFile
  pub to_string : List (String × JsonValue) → String
  pub as_bytes : String → List ℕ

-- A call that its deadline cuts off leaves the world in some state.
pub data Deadline (S : Type 0) : Type 0 where
  met : Deadline S
  missed : (S → S) → Deadline S

module _ (D : TokenDisk) (I : Internet D) (config : Option OAuthConfig) (J : Json)
    (base : String) where
  abbrev get_request : String → List (String × String) → Request
  get_request url query = record {
    method = "GET";
    url = url;
    query = query;
    body = no_body;
    can_clone = true;
  }

  abbrev parsed : {T : Type 0} → (String → Result SyncError T) → Response → Exec (World D I) T
  parsed decode response = do
    checked ← lift (check_status D I config response)
    body ← lift checked.text
    lift (decode body)

  -- Sends a request, checks the answer's status and decodes its body.
  unfoldable pub fetch_json :
      {T : Type 0} → (String → Result SyncError T) → Request → Exec (World D I) T
  unfolding check_status
  fetch_json decode request = do response ← send D I config request; parsed decode response

  abbrev page_query : String → String → Option String → List (String × String)
  page_query query fields none = ("q", query) ∷ ("fields", fields) ∷ ("pageSize", "1000") ∷ []
  page_query query fields (some token) =
      ("q", query) ∷ ("fields", fields) ∷ ("pageSize", "1000") ∷ ("pageToken", token) ∷ []

  -- One turn of the loop in `list_files`.
  unfoldable pub fetch_page :
      {T : Type 0}
      → (String → Result SyncError (Page T))
      → String
      → String
      → Option String
      → Exec (World D I) (Page T)
  unfolding fetch_json
  fetch_page decode query fields token =
      fetch_json decode (get_request (base <> "/files") (page_query query fields token))

  unfoldable pub list_files :
      {T : Type 0}
      → ℕ
      → (String → Result SyncError (Page T))
      → String
      → String
      → Exec (World D I) (Option (List T))
  unfolding pages fetch_page
  list_files fuel decode query fields = pages (fetch_page decode query fields) fuel none []

  abbrev children_query : String → String
  children_query folder_id =
      "'" <> (query_literal folder_id <> ("'" <> " in parents and trashed = false"))

  abbrev folders_query : String → String
  folders_query folder_id =
      "'"
      <> (query_literal folder_id
          <> ("'"
              <> (" in parents and trashed = false and mimeType = '" <> (folder_mime_type <> "'"))))

  unfoldable pub list_children : ℕ → String → Exec (World D I) (Option (List DriveFile))
  unfolding list_files query_literal
  list_children fuel folder_id =
      list_files fuel J.file_list (children_query folder_id)
        "nextPageToken, files(id, name, mimeType, parents, modifiedTime, trashed, md5Checksum, size)"

  abbrev folder_file : FolderEntry → DriveFile
  folder_file f = record {
    id = f.id;
    name = f.name;
    mime_type = folder_mime_type;
    parents = [];
    modified_time = none;
    trashed = false;
    md5_checksum = none;
    size = none;
  }

  abbrev folder_files : Option (List FolderEntry) → Option (List DriveFile)
  folder_files none = none
  folder_files (some entries) = some (map folder_file entries)

  unfoldable pub list_child_folders :
      ℕ → Deadline (World D I) → String → Exec (World D I) (Option (List DriveFile))
  unfolding list_files query_literal
  list_child_folders fuel (missed left) folder_id w =
      (err (timeout "listing Drive folders"), left w)
  list_child_folders fuel met folder_id w =
      (do
        folders ←
            list_files fuel J.folder_list (folders_query folder_id) "nextPageToken, files(id, name)"
        pure (folder_files folders))
        w

  unfoldable pub get_start_page_token : Exec (World D I) String
  unfolding fetch_json
  get_start_page_token =
      fetch_json J.start_page_token (get_request (api_base <> "/changes/startPageToken") [])

  abbrev change_fields : String
  change_fields =
      "nextPageToken, newStartPageToken, changes(fileId, removed, file(id, name, mimeType, parents, modifiedTime, trashed, md5Checksum, size))"

  unfoldable pub fetch_changes : String → Exec (World D I) ChangeListResponse
  unfolding fetch_json
  fetch_changes token =
      fetch_json J.change_list (
        get_request (api_base <> "/changes")
          (("pageToken", token) ∷ ("fields", change_fields) ∷ []))

  unfoldable pub create_folder : String → String → Exec (World D I) DriveFile
  unfolding fetch_json
  create_folder name parent_id = fetch_json J.drive_file (record {
    method = "POST";
    url = api_base <> "/files";
    query = ("fields", "id, name, mimeType, parents, modifiedTime, trashed") ∷ [];
    body = json_body (
        ("name", json_text name)
        ∷ ("mimeType", json_text folder_mime_type)
        ∷ ("parents", json_array (parent_id ∷ []))
        ∷ []);
    can_clone = true;
  })

  unfoldable pub download_file : String → Exec (World D I) (List ℕ)
  unfolding check_status
  download_file file_id = do
    response ←
        send D I config (get_request (api_base <> "/files/" <> file_id) (("alt", "media") ∷ []))
    checked ← lift (check_status D I config response)
    lift checked.bytes

  abbrev part : String → List ℕ
  part = J.as_bytes

  abbrev multipart : String → String → List ℕ → List ℕ
  multipart name parent_id content =
      part "--gdrive_client_boundary\r\nContent-Type: application/json; charset=UTF-8\r\n\r\n"
      ++ (part
            (J.to_string (("name", json_text name) ∷ ("parents", json_array (parent_id ∷ [])) ∷ []))
          ++ (part "\r\n--gdrive_client_boundary\r\nContent-Type: application/octet-stream\r\n\r\n"
              ++ (content ++ part "\r\n--gdrive_client_boundary--")))

  unfoldable pub upload_file : Option String → String → String → List ℕ → Exec (World D I) DriveFile
  unfolding fetch_json
  upload_file (some id) name parent_id content = fetch_json J.drive_file (record {
    method = "PATCH";
    url = upload_base <> "/files/" <> id;
    query = ("uploadType", "media") ∷ [];
    body = bytes_body content;
    can_clone = true;
  })
  upload_file none name parent_id content = fetch_json J.drive_file (record {
    method = "POST";
    url = upload_base <> "/files";
    query = ("uploadType", "multipart") ∷ [];
    body = multipart_body (multipart name parent_id content);
    can_clone = true;
  })

  unfoldable pub delete_file : String → Exec (World D I) Unit
  unfolding check_status
  delete_file file_id = do
    response ← send D I config (record {
      method = "DELETE";
      url = api_base <> "/files/" <> file_id;
      query = [];
      body = no_body;
      can_clone = true;
    })
    checked ← lift (check_status D I config response)
    pure tt
