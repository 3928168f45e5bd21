-- ===== src/StateDb/Opening.antt =====
-- `StateDb::open` and `StateDb::migrate` of state_db.rs.
use gd_client.Prelude.{String, Option, none, some, Result, ok, err, and_then}
use gd_client.Common.Paths.{PathBuf, parent}
use gd_client.Common.Errors.{IoError, SyncError, io, sqlite}
use gd_client.Effects.{Exec, ◌>>◌}
use gd_client.StateDb.{StateDb, statement}

-- The batch of `CREATE TABLE IF NOT EXISTS`, which adds what tables the file does not have.
unfoldable pub migrate : Exec StateDb Unit
unfolding statement
migrate = statement

-- The two settings of the connection, and `migrate`.
abbrev configured : Exec StateDb Unit
configured = statement >> statement >> migrate

-- `Connection::open` gives the rows that the file holds, none where it has no such table.
module _ {Disk : Type 0} (create_dir_all : PathBuf → Disk → Result IoError Unit × Disk)
    (connect : PathBuf → Disk → Result String StateDb × Disk) where
  abbrev create_directory : Option PathBuf → Disk → Result IoError Unit × Disk
  create_directory none d = (ok tt, d)
  create_directory (some dir) d = create_dir_all dir d

  abbrev opened : Result SyncError Unit × StateDb → Result SyncError StateDb
  opened (ok _, db) = ok db
  opened (err e, db) = err e

  -- `StateDb::open`
  unfoldable pub open_db : PathBuf → Disk → Result SyncError StateDb × Disk
  unfolding migrate statement
  open_db path d =
      and_then io (create_directory (parent path) d)
        λ _ d. and_then sqlite (connect path d) λ db d. (opened (configured db), d)
