-- ===== src/StateDb/Frames.antt =====
-- What each method of state_db.rs leaves alone.
use gd_client.Prelude.{String, List, ◌≡◌, refl, Result, Result-cases, err, inl, inr, ok}
use gd_client.Effects.Keeps.{Keeps, Keeps-bind}
use gd_client.Common.Config.{Uuid}
use gd_client.StateDb.{
  StateDb, FileStateEntry, statement, find_by_drive_id, find_by_local_path, get_page_token,
  set_page_token, upsert_file_state, remove_file_state, upsert_row, delete_rows, put_token,
  run_statement, SyncError,
}

-- A predicate of the two tables.
abbrev pub Tables : (List (Uuid × String) → List FileStateEntry → Type 0) → StateDb → Type 0
Tables P db = P db.page_tokens db.files

module _ (P : List (Uuid × String) → List FileStateEntry → Type 0) where
  pub statement-Keeps : Keeps (Tables P) statement
  unfolding statement
  statement-Keeps db p = p

  pub find_by_drive_id-Keeps :
      (folder : Uuid) (id : String) → Keeps (Tables P) (find_by_drive_id folder id)
  unfolding find_by_drive_id
  find_by_drive_id-Keeps folder id = Keeps-bind (Tables P) statement _ statement-Keeps (λ u db p. p)

  pub find_by_local_path-Keeps :
      (folder : Uuid) (path : String) → Keeps (Tables P) (find_by_local_path folder path)
  unfolding find_by_local_path
  find_by_local_path-Keeps folder path =
      Keeps-bind (Tables P) statement _ statement-Keeps (λ u db p. p)

  pub get_page_token-Keeps : (folder : Uuid) → Keeps (Tables P) (get_page_token folder)
  unfolding get_page_token
  get_page_token-Keeps folder = Keeps-bind (Tables P) statement _ statement-Keeps (λ u db p. p)

-- A write failed and changed no table, or changed them as it should.
abbrev pub Wrote :
    (List (Uuid × String) → List (Uuid × String))
    → (List FileStateEntry → List FileStateEntry)
    → StateDb
    → Result SyncError Unit
    → StateDb
    → Type 0
Wrote tokens files db (err e) db' = (db'.page_tokens ≡ db.page_tokens) × (db'.files ≡ db.files)
Wrote tokens files db (ok _) db' =
    (db'.page_tokens ≡ tokens db.page_tokens) × (db'.files ≡ files db.files)

pub upsert_file_state-Wrote :
    (entry : FileStateEntry) (db : StateDb)
    → Wrote
        (λ t. t)
        (upsert_row entry)
        db
        (upsert_file_state entry db).0
        (upsert_file_state entry db).1
unfolding upsert_file_state statement
upsert_file_state-Wrote entry db = elim (Result-cases (run_statement db.outcomes).0) [
  | inl (u, e) ↦ rw e (refl, refl)
  | inr (x, e) ↦ rw e (refl, refl)
]

pub remove_file_state-Wrote :
    (folder : Uuid) (path : String) (db : StateDb)
    → Wrote
        (λ t. t)
        (delete_rows folder path)
        db
        (remove_file_state folder path db).0
        (remove_file_state folder path db).1
unfolding remove_file_state statement
remove_file_state-Wrote folder path db = elim (Result-cases (run_statement db.outcomes).0) [
  | inl (u, e) ↦ rw e (refl, refl)
  | inr (x, e) ↦ rw e (refl, refl)
]

pub set_page_token-Wrote :
    (folder : Uuid) (token : String) (db : StateDb)
    → Wrote
        (put_token folder token)
        (λ f. f)
        db
        (set_page_token folder token db).0
        (set_page_token folder token db).1
unfolding set_page_token statement
set_page_token-Wrote folder token db = elim (Result-cases (run_statement db.outcomes).0) [
  | inl (u, e) ↦ rw e (refl, refl)
  | inr (x, e) ↦ rw e (refl, refl)
]

Wrote-tokens :
    (files : List FileStateEntry → List FileStateEntry) (db db' : StateDb)
    (r : Result SyncError Unit)
    → Wrote (λ t. t) files db r db'
    → db'.page_tokens ≡ db.page_tokens
Wrote-tokens files db db' (ok u) w = w.0
Wrote-tokens files db db' (err e) w = w.0

pub page_tokens-upsert_file_state :
    (entry : FileStateEntry) (db : StateDb)
    → (upsert_file_state entry db).1.page_tokens ≡ db.page_tokens
page_tokens-upsert_file_state entry db =
    Wrote-tokens (upsert_row entry) db (upsert_file_state entry db).1 (upsert_file_state entry db).0
      (upsert_file_state-Wrote entry db)

pub page_tokens-remove_file_state :
    (folder : Uuid) (path : String) (db : StateDb)
    → (remove_file_state folder path db).1.page_tokens ≡ db.page_tokens
page_tokens-remove_file_state folder path db =
    Wrote-tokens (delete_rows folder path) db (remove_file_state folder path db).1
      (remove_file_state folder path db).0 (remove_file_state-Wrote folder path db)
