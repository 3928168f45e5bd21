-- ===== src/StateDb.antt =====
-- crates/gdrive-sync/src/state_db.rs. A table is the list of its rows in the order in which a scan
-- meets them, and each operation is the meaning of its SQL statement. Whether SQLite runs a statement
-- is the environment's choice: each one takes the next outcome from `outcomes`, where `some message`
-- is a failure, and an empty list is a database that never fails. A row's folder is a `Uuid`, so the
-- text that `row_to_entry` parses is one that an upsert wrote. The connection's lock makes each
-- operation one step.
pub mod Laws
pub mod PrimaryKey
pub mod Frames
pub mod Refinement
pub mod Opening
mod Tests
use gd_client.Prelude.{
  ◌==◌, Bool, List, Option, Result, String, [], err, false, if◌then◌else◌, none, ok, some, str_eq,
  ℕ, ◌&&◌, ◌∷◌,
}
use gd_client.Common.Errors.{SyncError, sqlite}
use gd_client.Common.Config.{Uuid}
use gd_client.Effects.{Exec, ◌>>=◌, ◌>>◌}

pub record FileStateEntry : Type 0 where
  pub sync_folder_id : Uuid
  pub local_rel_path : String
  pub drive_file_id : Option String
  pub is_folder : Bool
  pub local_mtime_secs : Option ℕ
  pub drive_modified_time : Option String
  pub md5_checksum : Option String

-- The tables `sync_folder_state` and `file_state`.
pub record StateDb : Type 0 where
  pub page_tokens : List (Uuid × String)
  pub files : List FileStateEntry
  pub outcomes : List (Option String)

-- A database as `StateDb::open` and `migrate` leave a new file.
abbrev pub empty_db : List (Option String) → StateDb
empty_db outcomes = record { page_tokens = []; files = []; outcomes = outcomes }

abbrev pub run_statement : List (Option String) → Result SyncError Unit × List (Option String)
run_statement [] = (ok tt, [])
run_statement (none ∷ rest) = (ok tt, rest)
run_statement (some message ∷ rest) = (err (sqlite message), rest)

-- Prepares and runs one statement, or does one of these where the code treats them apart.
unfoldable pub statement : Exec StateDb Unit
statement db = let (r, rest) = run_statement db.outcomes in (r, record db { outcomes = rest })

unfoldable pub token_of : Uuid → List (Uuid × String) → Option String
token_of folder [] = none
token_of folder ((id, token) ∷ rows) = if id == folder then some token else token_of folder rows

-- `.ok()` turns every failure of `query_row` into a missing token.
abbrev row_or_none : Result SyncError Unit → Option String → Option String
row_or_none (ok _) token = token
row_or_none (err _) token = none

unfoldable pub get_page_token : Uuid → Exec StateDb (Option String)
unfolding statement token_of
get_page_token folder = do
  statement
  λ db. let (r, db') = statement db in (ok (row_or_none r (token_of folder db.page_tokens)), db')

-- INSERT … ON CONFLICT(sync_folder_id) DO UPDATE
unfoldable pub put_token : Uuid → String → List (Uuid × String) → List (Uuid × String)
put_token folder token [] = (folder, token) ∷ []
put_token folder token ((id, old) ∷ rows) =
    let rest = put_token folder token rows in
    if id == folder then (id, token) ∷ rows else (id, old) ∷ rest

unfoldable pub set_page_token : Uuid → String → Exec StateDb Unit
unfolding statement put_token
set_page_token folder token = do
  statement
  λ db. (ok tt, record db { page_tokens = put_token folder token db.page_tokens })

-- The primary key of `file_state`.
abbrev pub has_key : Uuid → String → FileStateEntry → Bool
has_key folder path row = row.sync_folder_id == folder && str_eq row.local_rel_path path

-- `drive_file_id = ?2` is not true of a row whose id is NULL.
abbrev pub has_drive_id : Uuid → String → FileStateEntry → Bool
has_drive_id folder drive_id row =
    row.sync_folder_id == folder
    && (elim row.drive_file_id [ none ↦ false | some id ↦ str_eq id drive_id ])

-- INSERT … ON CONFLICT(sync_folder_id, local_rel_path) DO UPDATE SET all other columns
unfoldable pub upsert_row : FileStateEntry → List FileStateEntry → List FileStateEntry
upsert_row entry [] = entry ∷ []
upsert_row entry (row ∷ rows) =
    let rest = upsert_row entry rows in
    if has_key entry.sync_folder_id entry.local_rel_path row then entry ∷ rows else row ∷ rest

unfoldable pub upsert_file_state : FileStateEntry → Exec StateDb Unit
unfolding statement upsert_row
upsert_file_state entry = do
  statement
  λ db. (ok tt, record db { files = upsert_row entry db.files })

-- DELETE FROM file_state WHERE sync_folder_id = ?1 AND local_rel_path = ?2
unfoldable pub delete_rows : Uuid → String → List FileStateEntry → List FileStateEntry
delete_rows folder path [] = []
delete_rows folder path (row ∷ rows) =
    let rest = delete_rows folder path rows in if has_key folder path row then rest else row ∷ rest

unfoldable pub remove_file_state : Uuid → String → Exec StateDb Unit
unfolding statement delete_rows
remove_file_state folder path = do
  statement
  λ db. (ok tt, record db { files = delete_rows folder path db.files })

-- The first row that a query returns.
unfoldable pub first_row : (FileStateEntry → Bool) → List FileStateEntry → Option FileStateEntry
first_row p [] = none
first_row p (row ∷ rows) = if p row then some row else first_row p rows

unfoldable pub find_by_drive_id : Uuid → String → Exec StateDb (Option FileStateEntry)
unfolding statement first_row
find_by_drive_id folder drive_id = do
  statement
  λ db. (ok (first_row (has_drive_id folder drive_id) db.files), db)

unfoldable pub find_by_local_path : Uuid → String → Exec StateDb (Option FileStateEntry)
unfolding statement first_row
find_by_local_path folder path = do
  statement
  λ db. (ok (first_row (has_key folder path) db.files), db)
