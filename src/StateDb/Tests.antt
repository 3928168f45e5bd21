-- ===== src/StateDb/Tests.antt =====
-- state_db.rs on a database with two rows.
use gd_client.Prelude.Keys.{nat_ord, string_ord}
use gd_client.Prelude.{List, [], ◌∷◌, ok, refl, some, none, ◌≡◌, String, false}
use gd_client.Common.Config.{Uuid}
use gd_client.StateDb.{
  StateDb, FileStateEntry, empty_db, find_by_drive_id, find_by_local_path, get_page_token,
}
use gd_client.StateDb.Refinement.{
  Write, put_row, drop_row, put_page_token, view, replay, accepted, run_writes, Answers,
  run_writes-Contents,
}
use gd_client.StateDb.PrimaryKey.{
  UniqueKeys, FileWrite, upsert, file_writes-UniqueKeys, file_writes,
}

abbrev entry : Uuid → String → String → FileStateEntry
entry folder path id = record {
  sync_folder_id = folder;
  local_rel_path = path;
  drive_file_id = some id;
  is_folder = false;
  local_mtime_secs = none;
  drive_modified_time = none;
  md5_checksum = some "d41d8cd9";
}

abbrev two_rows : StateDb
two_rows = record {
  page_tokens = (1, "t0") ∷ [];
  files = entry 1 "a.txt" "id-a" ∷ entry 1 "b.txt" "id-b" ∷ [];
  outcomes = [];
}

abbrev failing : StateDb
failing = record two_rows { outcomes = none ∷ some "disk I/O error" ∷ [] }

found_by_id : (find_by_drive_id 1 "id-b" two_rows).0 ≡ ok (some (entry 1 "b.txt" "id-b"))
unfolding find_by_drive_id
found_by_id = refl

abbrev changes : List Write
changes = put_row (entry 1 "a.txt" "id-c") ∷ put_page_token 1 "t1" ∷ drop_row 1 "b.txt" ∷ []

run_writes-Contents_example :
    (view (run_writes changes failing) ≡ replay (accepted changes failing.outcomes) (view failing))
    × Answers
        (find_by_local_path 1 "b.txt" (run_writes changes failing)).0
        ((replay (accepted changes failing.outcomes) (view failing)).row 1 "b.txt")
run_writes-Contents_example = run_writes-Contents changes failing 1 "b.txt"

swallowed : (get_page_token 1 failing).0 ≡ ok none
unfolding get_page_token
swallowed = refl

abbrev writes : List FileWrite
writes =
    upsert (entry 1 "a.txt" "id-a")
    ∷ upsert (entry 1 "a.txt" "id-c")
    ∷ upsert (entry 2 "a.txt" "id-d")
    ∷ FileWrite.remove 1 "b.txt"
    ∷ []

file_writes-UniqueKeys_example : UniqueKeys (file_writes writes (empty_db [])).files
file_writes-UniqueKeys_example = file_writes-UniqueKeys writes (empty_db []) tt
