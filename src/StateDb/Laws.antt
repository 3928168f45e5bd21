-- ===== src/StateDb/Laws.antt =====
-- What the queries of state_db.rs return after its updates, over a database that runs the statements.
use gd_client.Prelude.Keys.{nat_ord, string_ord}
use gd_client.Prelude.{
  List, String, [], arith, eq_iff, if◌then◌else◌, none, ok, refl, some, str_eq, ◌&&◌, ◌==◌, ◌∷◌,
  ◌≡◌,
}
use gd_client.Common.Config.{Uuid}
use gd_client.StateDb.{
  StateDb, FileStateEntry, delete_rows, find_by_local_path, first_row, get_page_token, has_key,
  put_token, remove_file_state, set_page_token, token_of, upsert_file_state, upsert_row,
}

-- SQLite runs every statement.
abbrev pub Healthy : StateDb → Type 0
Healthy db = db.outcomes ≡ []

pub find-upsert_row :
    (folder : Uuid) (path : String) (entry : FileStateEntry) (rows : List FileStateEntry)
    → first_row (has_key folder path) (upsert_row entry rows)
      ≡ (if has_key folder path entry then some entry else first_row (has_key folder path) rows)
unfolding first_row upsert_row
find-upsert_row folder path entry [] = refl
find-upsert_row folder path entry (row ∷ rows) = ground (
  arith,
  eq_iff entry.local_rel_path path,
  eq_iff row.local_rel_path path,
  eq_iff row.local_rel_path entry.local_rel_path,
  find-upsert_row folder path entry rows,
)

pub find-delete_rows :
    (folder : Uuid) (path : String) (f : Uuid) (p : String) (rows : List FileStateEntry)
    → first_row (has_key folder path) (delete_rows f p rows)
      ≡ (if f == folder && str_eq p path then none else first_row (has_key folder path) rows)
unfolding first_row delete_rows
find-delete_rows folder path f p [] = ground arith
find-delete_rows folder path f p (row ∷ rows) = ground (
  arith,
  eq_iff p path,
  eq_iff row.local_rel_path path,
  eq_iff row.local_rel_path p,
  find-delete_rows folder path f p rows,
)

pub token_of-put_token :
    (folder f : Uuid) (token : String) (rows : List (Uuid × String))
    → token_of folder (put_token f token rows)
      ≡ (if f == folder then some token else token_of folder rows)
unfolding token_of put_token
token_of-put_token folder f token [] = refl
token_of-put_token folder f token ((id, old) ∷ rows) =
    ground (arith, token_of-put_token folder f token rows)

-- Over a database that runs its statements, an upsert is what a look-up by its folder and path then
-- finds, and a look-up by any other finds what it found before.
find-upsert :
    (db : StateDb) (entry : FileStateEntry) (folder : Uuid) (path : String)
    → Healthy db
    → (find_by_local_path folder path (upsert_file_state entry db).1).0 ≡ (
        if has_key folder path entry
        then ok (some entry)
        else (find_by_local_path folder path db).0)
unfolding find_by_local_path upsert_file_state
find-upsert db entry folder path h = ground (arith, find-upsert_row folder path entry db.files)

-- Over a database that runs its statements, after a removal a look-up by its folder and path finds
-- nothing, and any other what it found before.
find-remove :
    (db : StateDb) (f : Uuid) (p : String) (folder : Uuid) (path : String)
    → Healthy db
    → (find_by_local_path folder path (remove_file_state f p db).1).0
      ≡ (if f == folder && str_eq p path then ok none else (find_by_local_path folder path db).0)
unfolding find_by_local_path remove_file_state
find-remove db f p folder path h = ground (arith, find-delete_rows folder path f p db.files)

-- Over a database that runs its statements, a page token that was set is read back, and those of other
-- folders stay.
get-set_page_token :
    (db : StateDb) (f : Uuid) (token : String) (folder : Uuid)
    → Healthy db
    → (get_page_token folder (set_page_token f token db).1).0
      ≡ (if f == folder then ok (some token) else (get_page_token folder db).0)
unfolding get_page_token set_page_token
get-set_page_token db f token folder h =
    ground (arith, token_of-put_token folder f token db.page_tokens)
