-- ===== src/StateDb/Refinement.antt =====
-- The abstract view of state_db.rs: two functions, which forget how the rows are kept and in what order.
use mathlib.Core.Path.{fun_ext}
use gd_client.Prelude.{
  String, Option, none, some, List, [], ◌∷◌, Result, ok, err, ◌≡◌, ◌∙◌, refl, ap, subst, ◌==◌, ◌&&◌,
  str_eq, if◌then◌else◌, Result-cases, inl, inr,
}
use gd_client.Prelude.Keys.{nat_ord, string_ord}
use gd_client.Common.Config.{Uuid}
use gd_client.Common.Errors.{SyncError, sqlite}
use gd_client.Effects.{Exec}
use gd_client.StateDb.{
  StateDb, FileStateEntry, statement, run_statement, has_key, first_row, token_of,
  upsert_file_state, remove_file_state, set_page_token, find_by_local_path,
}
use gd_client.StateDb.Laws.{find-upsert_row, find-delete_rows, token_of-put_token}

-- What the database holds: the page token of a folder, the row of a folder and a path.
pub record Contents : Type 0 where
  pub token : Uuid → Option String
  pub row : Uuid → String → Option FileStateEntry

abbrev pub view : StateDb → Contents
view db = record {
  token = λ folder. token_of folder db.page_tokens;
  row = λ folder path. first_row (has_key folder path) db.files;
}

pub data Write : Type 0 where
  put_row : FileStateEntry → Write
  drop_row : Uuid → String → Write
  put_page_token : Uuid → String → Write

-- The same writes on the functions.
abbrev pub specified : Write → Contents → Contents
specified (put_row entry) c = record c {
  row = λ folder path. if has_key folder path entry then some entry else c.row folder path;
}
specified (drop_row f p) c = record c {
  row = λ folder path. if f == folder && str_eq p path then none else c.row folder path;
}
specified (put_page_token f t) c = record c {
  token = λ folder. if f == folder then some t else c.token folder;
}

abbrev pub replay : List Write → Contents → Contents
replay [] c = c
replay (w ∷ ws) c = replay ws (specified w c)

abbrev pub run_write : Write → Exec StateDb Unit
run_write (put_row entry) = upsert_file_state entry
run_write (drop_row folder path) = remove_file_state folder path
run_write (put_page_token folder token) = set_page_token folder token

abbrev pub run_writes : List Write → StateDb → StateDb
run_writes [] db = db
run_writes (w ∷ ws) db = run_writes ws (run_write w db).1

-- The writes that SQLite does not refuse, where each takes the next outcome of a statement.
abbrev pub accepted : List Write → List (Option String) → List Write
accepted [] outcomes = []
accepted (w ∷ ws) [] = w ∷ accepted ws []
accepted (w ∷ ws) (none ∷ outcomes) = w ∷ accepted ws outcomes
accepted (w ∷ ws) (some message ∷ outcomes) = accepted ws outcomes

-- An answer is the value; a failure is no answer.
abbrev pub Answers : {A : Type 0} → Result SyncError A → A → Type 0
Answers (ok a) value = a ≡ value
Answers (err e) value = Unit

Contents-eq :
    (c d : Contents)
    → ((folder : Uuid) → c.token folder ≡ d.token folder)
    → ((folder : Uuid) (path : String) → c.row folder path ≡ d.row folder path)
    → c ≡ d
Contents-eq c d tokens rows i = record {
  token = fun_ext tokens i;
  row = fun_ext (λ folder. fun_ext (λ path. rows folder path)) i;
}

-- A write that SQLite runs does as it is specified, and takes one outcome.
write-passes :
    (w : Write) (db : StateDb) (rest : List (Option String))
    → run_statement db.outcomes ≡ (ok tt, rest)
    → (view (run_write w db).1 ≡ specified w (view db)) × ((run_write w db).1.outcomes ≡ rest)
unfolding upsert_file_state remove_file_state set_page_token statement
write-passes (put_row entry) db rest h =
    rw h (Contents-eq _ _ (λ f. refl) (λ f p. find-upsert_row f p entry db.files), refl)
write-passes (drop_row folder path) db rest h =
    rw h (Contents-eq _ _ (λ f. refl) (λ f p. find-delete_rows f p folder path db.files), refl)
write-passes (put_page_token folder token) db rest h =
    rw h
      (Contents-eq _ _ (λ f. token_of-put_token f folder token db.page_tokens) (λ f p. refl), refl)

-- One that it refuses does nothing but that.
write-fails :
    (w : Write) (db : StateDb) (e : SyncError) (rest : List (Option String))
    → run_statement db.outcomes ≡ (err e, rest)
    → (view (run_write w db).1 ≡ view db) × ((run_write w db).1.outcomes ≡ rest)
unfolding upsert_file_state remove_file_state set_page_token statement
write-fails (put_row entry) db e rest h = rw h (refl, refl)
write-fails (drop_row folder path) db e rest h = rw h (refl, refl)
write-fails (put_page_token folder token) db e rest h = rw h (refl, refl)

view-run_writes :
    (ws : List Write) (db : StateDb) (outcomes : List (Option String))
    → db.outcomes ≡ outcomes
    → view (run_writes ws db) ≡ replay (accepted ws outcomes) (view db)
view-run_writes [] db outcomes h = refl
view-run_writes (w ∷ ws) db [] h =
    let d = write-passes w db [] (ap run_statement h) in
    view-run_writes ws (run_write w db).1 [] d.1 ∙ ap (replay (accepted ws [])) d.0
view-run_writes (w ∷ ws) db (none ∷ rest) h =
    let d = write-passes w db rest (ap run_statement h) in
    view-run_writes ws (run_write w db).1 rest d.1 ∙ ap (replay (accepted ws rest)) d.0
view-run_writes (w ∷ ws) db (some message ∷ rest) h =
    let d = write-fails w db (sqlite message) rest (ap run_statement h) in
    view-run_writes ws (run_write w db).1 rest d.1 ∙ ap (replay (accepted ws rest)) d.0

find-Answers :
    (folder : Uuid) (path : String) (db : StateDb)
    → Answers (find_by_local_path folder path db).0 ((view db).row folder path)
unfolding find_by_local_path statement
find-Answers folder path db = elim (Result-cases (run_statement db.outcomes).0) [
  | inl (u, e) ↦ rw e refl
  | inr (x, e) ↦ rw e tt
]

-- After any writes the database holds what two functions hold after those writes for which SQLite has no
-- failure in store, each put to the functions at its folder, or at its folder and path; and a look-up that
-- succeeds gives the function's row.
pub run_writes-Contents :
    (ws : List Write) (db : StateDb) (folder : Uuid) (path : String)
    → (view (run_writes ws db) ≡ replay (accepted ws db.outcomes) (view db))
      × Answers
          (find_by_local_path folder path (run_writes ws db)).0
          ((replay (accepted ws db.outcomes) (view db)).row folder path)
run_writes-Contents ws db folder path = (
  view-run_writes ws db db.outcomes refl,
  subst
      (λ (c : Contents).
        Answers (find_by_local_path folder path (run_writes ws db)).0 (c.row folder path))
      (view-run_writes ws db db.outcomes refl) (find-Answers folder path (run_writes ws db)),
)
