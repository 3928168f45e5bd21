-- ===== src/Daemon.antt =====
-- crates/gdrived/src/main.rs, up to the running service: what the daemon reads when it starts, and the
-- engine and the service that it makes of it. The three disks are parts of one: that of the
-- configuration file, that of the cached token, in whose directory the database is, and the database.
pub mod Startup
mod Tests
use gd_client.Prelude.{
  String, Option, none, some, is_some, Result, ok, err, and_then, if◌then◌else◌,
}
use gd_client.Common.Paths.{PathBuf}
use gd_client.Common.Directories.{ProjectDirs, config_file, sync_state_db_file, oauth_token_file}
use gd_client.Common.Errors.{CommonError, SyncError, common}
use gd_client.Common.Config.{AppConfig, ConfigStore, load_from}
use gd_client.StateDb.{StateDb}
use gd_client.StateDb.Opening.{open_db}
use gd_client.Drive.Auth.{TokenDisk, StoredToken, load_token}
use gd_client.Drive.Tokens.{Client, new_state, restore_token}
use gd_client.Engine.Workers.{SyncEngine, new_engine, start_all}
use gd_client.Service.{ServiceState}
use gd_client.Service.SignIns.Histories.{new_service}

-- What `main` returns as an error: one of the paths and the configuration, one of the tokens and the
-- database, or one of the connection to the bus, which has 5 seconds.
pub data StartError : Type 0 where
  common_error : CommonError → StartError
  sync_error : SyncError → StartError
  bus_error : String → StartError
  bus_elapsed : StartError

-- What runs from then on.
pub record Daemon (S : ConfigStore) (D : TokenDisk) : Type 0 where
  pub service : ServiceState S D
  pub state_db : StateDb

module _ (S : ConfigStore) (D : TokenDisk) (from : String → String → String → Option ProjectDirs)
    (connect : PathBuf → D.Disk → Result String StateDb × D.Disk) where
  -- `auth::default_token_path`
  unfoldable pub default_token_path : D.Disk → Result SyncError PathBuf × D.Disk
  unfolding oauth_token_file
  default_token_path d =
      and_then common (oauth_token_file D.create_dir_all from d) λ path d. (ok path, d)

  unfoldable pub load_cached_token : D.Disk → Result SyncError (Option StoredToken) × D.Disk
  unfolding default_token_path load_token
  load_cached_token d = and_then (λ e. e) (default_token_path d) λ path d. (load_token D path d, d)

  -- A cache that cannot be read is one without a token.
  abbrev pub cached : Result SyncError (Option StoredToken) → Option StoredToken
  cached (ok token) = token
  cached (err e) = none

  -- `DriveClient::new` with an empty access token
  abbrev pub signed_out : D.Disk → Client D
  signed_out d = record { tokens = new_state ""; disk = d }

  -- `engine.restore_token`, with the path of the cache.
  unfoldable pub restored : Option StoredToken → D.Disk → Result SyncError (Client D) × D.Disk
  unfolding default_token_path restore_token new_state
  restored none d = (ok (signed_out d), d)
  restored (some token) d =
      and_then (λ e. e) (default_token_path d)
        λ path d. (ok (restore_token D token path (signed_out d)), d)

  -- The engine, whose folders are started if there was a token.
  unfoldable pub engine_of : AppConfig → Option StoredToken → SyncEngine
  unfolding start_all
  engine_of config token =
      if is_some token then start_all config (new_engine config) else new_engine config

  -- The connection to the bus: `none` where the deadline passes.
  abbrev connected : Option (Result String Unit) → Daemon S D → Result StartError (Daemon S D)
  connected none daemon = err bus_elapsed
  connected (some (err e)) daemon = err (bus_error e)
  connected (some (ok _)) daemon = ok daemon

  -- `main` from the opened database on.
  unfoldable pub serve :
      Option (Result String Unit)
      → AppConfig
      → PathBuf
      → Option StoredToken
      → StateDb
      → S.Disk
      → D.Disk
      → Result StartError (Daemon S D) × D.Disk
  unfolding restored engine_of default_token_path
  serve bus config config_path token db config_disk d =
      and_then sync_error (restored token d) λ client d.
        and_then sync_error (default_token_path d) λ token_path d. (
          connected bus (record {
            service =
                new_service S D config config_path token_path (engine_of config token) config_disk
                  (record client { disk = d });
            state_db = db;
          }),
          d,
        )

  -- `main` until the service is ready
  unfoldable pub main :
      Option (Result String Unit) → S.Disk → D.Disk → Result StartError (Daemon S D) × D.Disk
  unfolding config_file load_from load_cached_token sync_state_db_file open_db serve
  main bus config_disk d =
      and_then common_error (config_file D.create_dir_all from, d)
        λ config_path d.
          and_then common_error (load_from S config_disk config_path, d)
            λ config d.
              let (token, d) = load_cached_token d in
              and_then common_error (sync_state_db_file D.create_dir_all from d) λ state_db_path d.
                and_then sync_error (open_db D.create_dir_all connect state_db_path d)
                  λ db d. serve bus config config_path (cached token) db config_disk d
