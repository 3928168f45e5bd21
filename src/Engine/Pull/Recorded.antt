-- ===== src/Engine/Pull/Recorded.antt =====
-- Rows of the state database that have a folder and a path, for engine.rs.
use gd_client.Prelude.{
  arith, eq_iff, String, Bool, true, false, Option, none, some, is_some, List, [], ◌∷◌, ◌≡◌, refl,
}
use gd_client.Prelude.Keys.{nat_ord, string_ord}
use gd_client.Common.Config.{Uuid}
use gd_client.StateDb.{FileStateEntry, has_key, has_drive_id, first_row, upsert_row}
use gd_client.StateDb.Laws.{find-upsert_row}
use gd_client.Drive.Client.{DriveFile}
use gd_client.Engine.Pull.{stale}

abbrev pub Recorded : Uuid → String → List FileStateEntry → Type 0
Recorded id path rows = is_some (first_row (has_key id path) rows) ≡ true

pub upsert_row-Recorded :
    (id : Uuid) (path : String) (entry : FileStateEntry) (rows : List FileStateEntry)
    → Recorded id path rows
    → Recorded id path (upsert_row entry rows)
upsert_row-Recorded id path entry rows h = ground (arith, find-upsert_row id path entry rows)

pub upserted-Recorded :
    (entry : FileStateEntry) (rows : List FileStateEntry)
    → Recorded entry.sync_folder_id entry.local_rel_path (upsert_row entry rows)
upserted-Recorded entry rows = ground (
  arith,
  eq_iff entry.local_rel_path entry.local_rel_path,
  find-upsert_row entry.sync_folder_id entry.local_rel_path entry rows,
)

first_row-holds :
    (p : FileStateEntry → Bool) (rows : List FileStateEntry) (e : FileStateEntry)
    → first_row p rows ≡ some e
    → p e ≡ true
unfolding first_row
first_row-holds p [] e h = cc
first_row-holds p (row ∷ rows) e h = ground (arith, first_row-holds p rows e)

first_row-other :
    (p q : FileStateEntry → Bool) (rows : List FileStateEntry) (e : FileStateEntry)
    → first_row p rows ≡ some e
    → q e ≡ true
    → is_some (first_row q rows) ≡ true
unfolding first_row
first_row-other p q [] e h he = cc
first_row-other p q (row ∷ rows) e h he = ground (arith, first_row-other p q rows e)

-- A file that needs no download has the row that says so.
pub not_stale-Recorded :
    (id : Uuid) (path : String) (remote : DriveFile) (rows : List FileStateEntry)
    → stale path remote (first_row (has_drive_id id remote.id) rows) ≡ false
    → Recorded id path rows
not_stale-Recorded id path remote rows = found (first_row (has_drive_id id remote.id) rows) refl
  where
    found :
        (o : Option FileStateEntry)
        → first_row (has_drive_id id remote.id) rows ≡ o
        → stale path remote o ≡ false
        → Recorded id path rows
    found none e h = cc
    found (some row) e h =
        first_row-other (has_drive_id id remote.id) (has_key id path) rows row e
          (ground (arith, first_row-holds (has_drive_id id remote.id) rows row e))
