-- ===== src/StateDb/PrimaryKey.antt =====
-- The primary key of the table `file_state` (state_db.rs).
use gd_client.StateDb.Laws.{find-upsert_row, find-delete_rows}
use gd_client.Prelude.Keys.{nat_ord, string_ord}
use gd_client.Prelude.{List, String, [], none, refl, ◌∷◌, ◌≡◌, arith, eq_iff}
use gd_client.Common.Config.{Uuid}
use gd_client.StateDb.{
  StateDb, FileStateEntry, delete_rows, first_row, has_key, upsert_row, remove_file_state,
  upsert_file_state,
}

-- No two rows have the same folder and path.
abbrev pub UniqueKeys : List FileStateEntry → Type 0
UniqueKeys [] = Unit
UniqueKeys (row ∷ rows) =
    (first_row (has_key row.sync_folder_id row.local_rel_path) rows ≡ none) × UniqueKeys rows

upsert_row-UniqueKeys :
    (entry : FileStateEntry) (rows : List FileStateEntry)
    → UniqueKeys rows
    → UniqueKeys (upsert_row entry rows)
unfolding upsert_row first_row
upsert_row-UniqueKeys entry [] u = (refl, tt)
upsert_row-UniqueKeys entry (row ∷ rows) u = ground (
  arith,
  eq_iff row.local_rel_path entry.local_rel_path,
  eq_iff entry.local_rel_path row.local_rel_path,
  find-upsert_row row.sync_folder_id row.local_rel_path entry rows,
  upsert_row-UniqueKeys entry rows,
)

delete_rows-UniqueKeys :
    (folder : Uuid) (path : String) (rows : List FileStateEntry)
    → UniqueKeys rows
    → UniqueKeys (delete_rows folder path rows)
unfolding delete_rows
delete_rows-UniqueKeys folder path [] u = tt
delete_rows-UniqueKeys folder path (row ∷ rows) u = ground (
  arith,
  find-delete_rows row.sync_folder_id row.local_rel_path folder path rows,
  delete_rows-UniqueKeys folder path rows,
)

-- What the table goes through: upserts and removals, each run or refused by SQLite.
pub data FileWrite : Type 0 where
  upsert : FileStateEntry → FileWrite
  remove : Uuid → String → FileWrite

abbrev file_write : FileWrite → StateDb → StateDb
file_write (upsert entry) db = (upsert_file_state entry db).1
file_write (remove folder path) db = (remove_file_state folder path db).1

abbrev pub file_writes : List FileWrite → StateDb → StateDb
file_writes [] db = db
file_writes (w ∷ ws) db = file_writes ws (file_write w db)

file_write-UniqueKeys :
    (w : FileWrite) (db : StateDb) → UniqueKeys db.files → UniqueKeys (file_write w db).files
unfolding upsert_file_state remove_file_state
file_write-UniqueKeys (upsert entry) db u = ground (arith, upsert_row-UniqueKeys entry db.files)
file_write-UniqueKeys (remove folder path) db u =
    ground (arith, delete_rows-UniqueKeys folder path db.files)

-- Whatever is written, and whatever of it SQLite refuses, no two rows have one folder and path if
-- none had before.
pub file_writes-UniqueKeys :
    (ws : List FileWrite) (db : StateDb)
    → UniqueKeys db.files
    → UniqueKeys (file_writes ws db).files
file_writes-UniqueKeys [] db u = u
file_writes-UniqueKeys (w ∷ ws) db u =
    file_writes-UniqueKeys ws (file_write w db) (file_write-UniqueKeys w db u)
